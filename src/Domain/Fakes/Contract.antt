-- ===== src/Domain/Fakes/Contract.antt =====
-- The fake of the node repository against the contract of WriteConcept.
use go_tahu_okf_semantic_mcp.Prelude.{
  ◌≡◌, refl, ap, ◌∙◌, Option, none, some, arith, ◌∷◌, Bytes, str_eq, str_eq_refl,
}
use go_tahu_okf_semantic_mcp.Exec.{not_found, ok, err, Exec, ok_injective}
use go_tahu_okf_semantic_mcp.Go.Map.{lookup, lookup-insert}
use go_tahu_okf_semantic_mcp.Domain.Types.{Time}
use go_tahu_okf_semantic_mcp.Domain.Fakes.{found, NodeMaps, key, node_fake}
use go_tahu_okf_semantic_mcp.UseCase.Concept.{ConceptService}
use go_tahu_okf_semantic_mcp.UseCase.Concept.Log.{IsReservedStore, same-prefix, index-differs}

pub found-ok : {A : Type 0} (o : Option A) (a : A) → found o ≡ ok a → o ≡ some a
found-ok none a h = absurd (cc h)
found-ok (some b) a h = ap some (ok_injective b a h)

pub found-err : {A : Type 0} (o : Option A) → found o ≡ err not_found → o ≡ none
found-err none h = refl
found-err (some b) h = absurd (cc h)

same-byte : (p q : Bytes) → str_eq (b':' ∷ p) (b':' ∷ q) ≡ str_eq p q
unfolding str_eq
same-byte p q = ground arith

key-same : (a p q : Bytes) → str_eq (key a p) (key a q) ≡ str_eq p q
key-same a p q = same-prefix a (b':' ∷ p) (b':' ∷ q) ∙ same-byte p q

module _ (now : Exec NodeMaps Time) (format_time : Time → Bytes)
    (reads : (t : NodeMaps) → (now t).1 ≡ t) where
  abbrev pub fake_service : ConceptService NodeMaps
  fake_service = record { node_repository = node_fake; now = now; format_time = format_time }

  abbrev pub reserved_at : NodeMaps → Bytes → Bytes → Option Bytes
  reserved_at t alias p = lookup (key alias p) t.reserved

  -- With a clock that changes nothing, the fake of the node repository keeps to IsReservedStore: its reserved
  -- files are the entries of its map.
  pub node_fake-IsReservedStore : IsReservedStore fake_service reserved_at
  node_fake-IsReservedStore = record {
    read_found = λ t a p text h. found-ok (lookup (key a p) t.reserved) text h;
    read_missing = λ t a p h. found-err (lookup (key a p) t.reserved) h;
    read_keeps = λ t a p b q. refl;
    write_sets = λ t a p text h. rw (lookup-insert, str_eq_refl) refl;
    write_keeps = λ t a d text. rw (lookup-insert, key-same, index-differs d) refl;
    get_keeps = λ t r b q. refl;
    put_keeps = λ t r c. refl;
    list_keeps = λ t a p b q. refl;
    now_keeps = λ t b q. ap (λ u. reserved_at u b q) (reads t);
  }
