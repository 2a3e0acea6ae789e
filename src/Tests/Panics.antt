-- ===== src/Tests/Panics.antt =====
-- The middleware round a handler that panics: the loop of a reindex that has too few vectors.
use go_tahu_okf_semantic_mcp.Prelude.{◌≡◌, refl, ℕ, [], ◌∷◌, codes}
use go_tahu_okf_semantic_mcp.Exec.{err, other}
use go_tahu_okf_semantic_mcp.UseCase.Reindex.{attach}
use go_tahu_okf_semantic_mcp.Transport.{panicked, logging_middleware}
use go_tahu_okf_semantic_mcp.Tests.Store.{intro_chunk}

panic-answered :
    logging_middleware
      (codes "7")
      (codes "bundle_reindex")
      (λ (t : ℕ). (attach (intro_chunk ∷ []) [], t))
      (0, [])
    ≡ (
      err (other "tool panicked"),
      (0, record { request_id = codes "7"; tool = codes "bundle_reindex"; event = panicked } ∷ []),
    )
unfolding logging_middleware attach
panic-answered = refl
