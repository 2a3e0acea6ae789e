-- ===== src/Tests/Codec.antt =====
-- A writing of the registry that can be read back, in place of YAML.
use go_tahu_okf_semantic_mcp.Prelude.{
  ◌≡◌, refl, ap, Option, none, some, ℕ, zero, suc, [], ◌∷◌, List, Bytes, length,
}
use go_tahu_okf_semantic_mcp.Exec.{Result, ok, err, other}
use go_tahu_okf_semantic_mcp.Registry.{YamlEntry, YamlFile, Yaml}
use go_tahu_okf_semantic_mcp.Registry.Refinement.{IsYaml}

-- A value written in front of a text, and read off it again.
pub record Codec (A : Type 0) : Type 0 where
  pub write : A → Bytes → Bytes
  pub read : Bytes → Option (A × Bytes)
  pub reads : (a : A) (rest : Bytes) → read (write a rest) ≡ some (a, rest)

abbrev number_read : Bytes → Option (ℕ × Bytes)
number_read [] = none
number_read (n ∷ rest) = some (n, rest)

abbrev number : Codec ℕ
number = record { write = λ n rest. n ∷ rest; read = number_read; reads = λ n rest. refl }

module _ {A B : Type 0} where
  abbrev and_then : Option (A × Bytes) → (A → Bytes → Option B) → Option B
  and_then none f = none
  and_then (some (a, rest)) f = f a rest

module _ {A B : Type 0} (c : Codec A) (d : Codec B) where
  abbrev pair_read : Bytes → Option ((A × B) × Bytes)
  pair_read t = and_then (c.read t) λ a u. and_then (d.read u) λ b v. some ((a, b), v)

  pair_reads :
      (p : A × B) (rest : Bytes) → pair_read (c.write p.0 (d.write p.1 rest)) ≡ some (p, rest)
  pair_reads (a, b) rest = rw (c.reads a (d.write b rest), d.reads b rest) refl

  abbrev pair : Codec (A × B)
  pair = record {
    write = λ p rest. c.write p.0 (d.write p.1 rest);
    read = pair_read;
    reads = pair_reads;
  }

module _ {A : Type 0} (c : Codec A) where
  abbrev items_write : List A → Bytes → Bytes
  items_write [] rest = rest
  items_write (a ∷ xs) rest = c.write a (items_write xs rest)

  abbrev items_read : ℕ → Bytes → Option (List A × Bytes)
  items_read zero t = some ([], t)
  items_read (suc n) t =
      and_then (c.read t) λ a u. and_then (items_read n u) λ xs v. some (a ∷ xs, v)

  items_reads :
      (xs : List A) (rest : Bytes) → items_read (length xs) (items_write xs rest) ≡ some (xs, rest)
  items_reads [] rest = refl
  items_reads (a ∷ xs) rest = rw (c.reads a (items_write xs rest), items_reads xs rest) refl

  abbrev items : Codec (List A)
  items = record {
    write = λ xs rest. length xs ∷ items_write xs rest;
    read = λ t. and_then (number_read t) items_read;
    reads = items_reads;
  }

abbrev Fields : Type 0
Fields = Bytes × (Bytes × (Bytes × (List Bytes × (ℕ × (ℕ × List Bytes)))))

abbrev fields : Codec Fields
fields = pair (items number) (
    pair (items number) (
      pair (items number)
        (pair (items (items number)) (pair number (pair number (items (items number)))))))

abbrev fields_of : YamlEntry → Fields
fields_of e = (
  e.alias,
  (e.root_path, (e.description, (e.tags, (e.created_at, (e.last_indexed_at, e.chunk_ids))))),
)

abbrev entry_of : Fields → YamlEntry
entry_of (a, (p, (d, (ts, (c, (l, ids)))))) = record {
  alias = a;
  root_path = p;
  description = d;
  tags = ts;
  created_at = c;
  last_indexed_at = l;
  chunk_ids = ids;
}

abbrev entry_read : Option (Fields × Bytes) → Option (YamlEntry × Bytes)
entry_read none = none
entry_read (some (f, rest)) = some (entry_of f, rest)

entry_reads :
    (e : YamlEntry) (rest : Bytes)
    → entry_read (fields.read (fields.write (fields_of e) rest)) ≡ some (e, rest)
entry_reads e rest = ap entry_read (fields.reads (fields_of e) rest)

abbrev entry : Codec YamlEntry
entry = record {
  write = λ e rest. fields.write (fields_of e) rest;
  read = λ t. entry_read (fields.read t);
  reads = entry_reads;
}

abbrev whole : Option (YamlFile × Bytes) → Result YamlFile
whole none = err (other "parse error")
whole (some (f, rest)) = ok f

pub yaml_of_lists : Yaml
yaml_of_lists = record {
  marshal = λ f. ok ((items entry).write f []);
  unmarshal = λ t. whole ((items entry).read t);
}

pub yaml_of_lists-IsYaml : IsYaml yaml_of_lists
unfolding yaml_of_lists
yaml_of_lists-IsYaml = record {
  written = λ f. (items entry).write f [];
  marshals = λ f. refl;
  reads_back = λ f. ap whole ((items entry).reads f []);
}
