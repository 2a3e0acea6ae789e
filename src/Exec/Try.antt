-- ===== src/Exec/Try.antt =====
-- A chain of functions that return `(T, error)` and change no state.
use go_tahu_okf_semantic_mcp.Prelude.{◌≡◌, refl}
use go_tahu_okf_semantic_mcp.Exec.{Result, ok, err}

infixl 10 ◌>>=◌ ◌>>◌
abbrev pub ◌>>=◌ {ℓ κ} : {A : Type ℓ} {B : Type κ} → Result A → (A → Result B) → Result B
ok a >>= f = f a
err e >>= f = err e

abbrev pub ◌>>◌ {ℓ κ} : {A : Type ℓ} {B : Type κ} → Result A → Result B → Result B
ok a >> n = n
err e >> n = err e

-- A chain that succeeds has a first step that does.
pub >>=-eq-ok {ℓ κ} :
    {A : Type ℓ} {B : Type κ} (m : Result A) (f : A → Result B) (b : B)
    → (m >>= f) ≡ ok b
    → (a : A) × (m ≡ ok a) × (f a ≡ ok b)
>>=-eq-ok (ok a) f b h = (a, refl, h)
>>=-eq-ok (err e) f b h = absurd (cc h)

pub >>-eq-ok {ℓ κ} :
    {A : Type ℓ} {B : Type κ} (m : Result A) (n : Result B) (b : B) → (m >> n) ≡ ok b → n ≡ ok b
>>-eq-ok (ok a) n b h = h
>>-eq-ok (err e) n b h = absurd (cc h)

pub >>-first {κ} :
    {B : Type κ} (m : Result (Unit {0})) (n : Result B) (b : B) → (m >> n) ≡ ok b → m ≡ ok tt
>>-first (ok a) n b h = refl
>>-first (err e) n b h = absurd (cc h)
