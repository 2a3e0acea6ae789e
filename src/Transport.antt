-- ===== src/Transport.antt =====
-- internal/infra/transport/server.go: the check of the address, the middleware round the tools, the health
-- check and the end of the HTTP server. The servers themselves are the library's.
pub mod Middleware
pub mod Server
use go_tahu_okf_semantic_mcp.Prelude.{
  Bool, true, false, Option, none, some, ℕ, [], ◌∷◌, List, if◌then◌else◌, Bytes, codes, str_eq,
}
use go_tahu_okf_semantic_mcp.Exec.{Error, panic, other, Result, ok, err, Exec}

-- net.SplitHostPort, for the host, and net.ParseIP with the test IsLoopback, `none` where it is no address.
pub record Net : Type 0 where
  pub host_of : Bytes → Result Bytes
  pub is_loopback : Bytes → Option Bool

abbrev host_or : Bytes → Result Bytes → Bytes
host_or addr (ok host) = host
host_or addr (err e) = addr

abbrev loopback_required : Option Bool → Result (Unit {0})
loopback_required (some true) = ok tt
loopback_required _ = err (other "non-loopback")

unfoldable pub validate_bind_addr : Net → Bytes → Result (Unit {0})
validate_bind_addr net addr =
    let host = host_or addr (net.host_of addr) in
    if str_eq host (codes "localhost") then ok tt else loopback_required (net.is_loopback host)

-- The answer of /healthz: the status, and the text.
unfoldable pub healthz : Bytes → ℕ × Bytes
healthz method =
    if str_eq method (codes "GET") then (200, codes "ok") else (405, codes "method not allowed")

-- What ends ServeHTTP: the context, with what Shutdown of the HTTP server returns, or an error of the listener.
pub data Ending : Type 0 where
  cancelled : Result (Unit {0}) → Ending
  listen_error : Error → Ending

unfoldable pub serve_http : Net → Bytes → Ending → Result (Unit {0})
unfolding validate_bind_addr
serve_http net addr (cancelled r) = elim (validate_bind_addr net addr) [ ok u ↦ r | err e ↦ err e ]
serve_http net addr (listen_error x) = elim (validate_bind_addr net addr) [
  | ok u ↦ err x
  | err e ↦ err e
]

-- A line of the log: the request, the tool, and what happened.
pub data Event : Type 0 where
  succeeded failed panicked : Event

pub record LogLine : Type 0 where
  pub request_id : Bytes
  pub tool : Bytes
  pub event : Event

abbrev pub is_panic : Error → Bool
is_panic panic = true
is_panic _ = false

-- A panic is recovered and becomes an error.
abbrev pub recovered : {R : Type 0} → Result R → Result R
recovered (ok r) = ok r
recovered (err e) = if is_panic e then err (other "tool panicked") else err e

abbrev pub event_of : {R : Type 0} → Result R → Event
event_of (ok r) = succeeded
event_of (err e) = if is_panic e then panicked else failed

-- The call of a handler: there is one line for each call, the last one first. The duration is left out.
unfoldable pub logging_middleware :
    {S R : Type 0} → Bytes → Bytes → Exec S R → Exec (S × List LogLine) R
logging_middleware id tool next (s, lines) =
    let (r, s') = next s in
    (recovered r, (s', record { request_id = id; tool = tool; event = event_of r } ∷ lines))
