-- ===== src/Transport/Middleware.antt =====
-- The answers of the middleware to the calls of the tools.
use go_tahu_okf_semantic_mcp.Prelude.{
  ◌≡◌, ◌≢◌, refl, ap, true, Bool-cases, inl, inr, ◌∷◌, List, Bytes,
}
use go_tahu_okf_semantic_mcp.Exec.{Error, panic, Result, ok, err, Exec}
use go_tahu_okf_semantic_mcp.Transport.{is_panic, recovered, event_of, LogLine, logging_middleware}

-- A result of a handler that is no panic.
abbrev pub IsAnswer : {R : Type 0} → Result R → Type 0
IsAnswer r = r ≢ err panic

is_panic-err : {R : Type 0} (e : Error) → ◌≡◌ {A = Result R} (err e) (err panic) → is_panic e ≡ true
is_panic-err e h = let same : e ≡ panic = cc h in rw same refl

panic_sound : (e : Error) → is_panic e ≡ true → e ≡ panic
panic_sound panic h = refl
panic_sound _ h = absurd (cc h)

recovered-IsAnswer : {R : Type 0} (r : Result R) → IsAnswer (recovered r)
recovered-IsAnswer (ok r) = λ h. cc h
recovered-IsAnswer (err e) = elim (Bool-cases (is_panic e)) [
  | inl p ↦ rw p (λ h. cc h)
  | inr n ↦ rw n (λ h. absurd (cc (n, is_panic-err e h)))
]

recovered-same : {R : Type 0} (r : Result R) → IsAnswer r → recovered r ≡ r
recovered-same (ok r) h = refl
recovered-same (err e) h = elim (Bool-cases (is_panic e)) [
  | inl p ↦ absurd (h (ap err (panic_sound e p)))
  | inr n ↦ rw n refl
]

-- Whatever a handler does, a panic included, a call through the middleware is answered with a result or an error,
-- which is that of the handler where it does not panic, and adds one line to the log; the state is that of the handler.
pub logging_middleware-IsAnswer :
    {S R : Type 0} (id tool : Bytes) (next : Exec S R) (s : S) (lines : List LogLine)
    → IsAnswer (logging_middleware id tool next (s, lines)).0
      × (IsAnswer (next s).0 → (logging_middleware id tool next (s, lines)).0 ≡ (next s).0)
      × ((logging_middleware id tool next (s, lines)).1 ≡ (
        (next s).1,
        record { request_id = id; tool = tool; event = event_of (next s).0 } ∷ lines,
      ))
unfolding logging_middleware
logging_middleware-IsAnswer id tool next s lines =
    (recovered-IsAnswer (next s).0, recovered-same (next s).0, refl)
