-- ===== src/Config/Validity.antt =====
-- The configurations that LoadFromPath returns.
use go_tahu_okf_semantic_mcp.Prelude.{
  ◌≡◌, ◌≤◌, ◌↔◌, refl, subst, not, ◌||◌, if◌then◌else◌, Bool, true, false, ℕ, arith, Bytes, ℤ, pos,
  negsuc, int_gt,
}
use go_tahu_okf_semantic_mcp.Exec.{Error, Result, ok, err, ok_injective}
use go_tahu_okf_semantic_mcp.Exec.Try.{>>=-eq-ok, >>-eq-ok, >>-first}
use go_tahu_okf_semantic_mcp.Go.Strings.{has_part}
use go_tahu_okf_semantic_mcp.Config.{
  Config, Environment, transports, log_levels, validate, file_text, decoded, load_from_path,
  apply_env,
}

-- An int from 1 to an upper limit.
abbrev pub InRange : ℕ → ℤ → Type 0
InRange limit (pos n) = (1 ≤ n) × (n ≤ limit)
InRange limit (negsuc n) = ⊥

abbrev pub IsPositive : ℤ → Type 0
IsPositive (pos n) = 1 ≤ n
IsPositive (negsuc n) = ⊥

pub record IsValid (c : Config) : Type 0 where
  pub transport : has_part transports c.transport ≡ true
  pub port : InRange 65535 c.port
  pub log_level : has_part log_levels c.log_level ≡ true
  pub batch : IsPositive c.embedding_batch_size

guard-ok :
    (e : Error) (b : Bool) (rest : Result (Unit {0}))
    → (if b then err e else rest) ≡ ok tt
    → (b ≡ false) × (rest ≡ ok tt)
guard-ok e true rest h = absurd (cc h)
guard-ok e false rest h = (refl, h)

IsPositive-int_gt : (z : ℤ) → not (int_gt z 0) ≡ false → IsPositive z
IsPositive-int_gt (pos n) h = ground arith
IsPositive-int_gt (negsuc n) h = absurd (cc h)

int_gt-IsPositive : (z : ℤ) → IsPositive z → int_gt z 0 ≡ true
int_gt-IsPositive (pos n) h = ground arith
int_gt-IsPositive (negsuc n) h = absurd h

InRange-int_gt :
    (limit : ℕ) (z : ℤ) → (not (int_gt z 0) || int_gt z limit) ≡ false → InRange limit z
InRange-int_gt limit (pos n) h = ground arith
InRange-int_gt limit (negsuc n) h = absurd (cc h)

int_gt-InRange :
    (limit : ℕ) (z : ℤ) → InRange limit z → (not (int_gt z 0) || int_gt z limit) ≡ false
int_gt-InRange limit (pos n) h = ground arith
int_gt-InRange limit (negsuc n) h = absurd h

not-false : (b : Bool) → not b ≡ false → b ≡ true
not-false true h = refl
not-false false h = cc

-- Validate accepts exactly the configurations with a known transport, a port from 1 to 65535, a known log
-- level and a positive batch size.
pub validate_iff : (c : Config) → (validate c ≡ ok tt) ↔ IsValid c
unfolding validate
validate_iff c = (
  λ h.
      let (t, h₁) = guard-ok _ (not (has_part transports c.transport)) _ h in
      let (p, h₂) = guard-ok _ (not (int_gt c.port 0) || int_gt c.port 65535) _ h₁ in
      let (l, h₃) = guard-ok _ (not (has_part log_levels c.log_level)) _ h₂ in
      let (b, _) = guard-ok _ (not (int_gt c.embedding_batch_size 0)) _ h₃ in
      record {
        transport = not-false (has_part transports c.transport) t;
        port = InRange-int_gt 65535 c.port p;
        log_level = not-false (has_part log_levels c.log_level) l;
        batch = IsPositive-int_gt c.embedding_batch_size b;
      },
  λ v.
      rw
        (
          v.transport,
          int_gt-InRange 65535 c.port v.port,
          v.log_level,
          int_gt-IsPositive c.embedding_batch_size v.batch,
        )
        refl,
)

-- Whatever the file and the environment say, a configuration that LoadFromPath returns has a known
-- transport, a port from 1 to 65535, a known log level and a positive batch size.
pub load_from_path-IsValid :
    (env : Environment) (path : Bytes) (c : Config) → load_from_path env path ≡ ok c → IsValid c
unfolding load_from_path
load_from_path-IsValid env path c h =
    let (text, _, h₁) = >>=-eq-ok (file_text env path) _ c h in
    let (cfg, _, h₂) = >>=-eq-ok (decoded env text) _ c h₁ in
    let returned =
      ok_injective (apply_env env cfg) c (>>-eq-ok (validate (apply_env env cfg)) _ c h₂) in
    let checked = >>-first (validate (apply_env env cfg)) (ok (apply_env env cfg)) c h₂ in
    subst IsValid returned ((validate_iff (apply_env env cfg)).0 checked)
