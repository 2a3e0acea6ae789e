-- ===== src/Tests/Fakes.antt =====
-- What List of the fake of the node repository answers with for a sub-path that is the beginning of a name.
use go_tahu_okf_semantic_mcp.Prelude.{◌↔◌, [], ◌∷◌, codes}
use mathlib.Core.List.{Memᴰ}
use go_tahu_okf_semantic_mcp.Go.Map.{Map}
use go_tahu_okf_semantic_mcp.Domain.Ref.{ConceptRef}
use go_tahu_okf_semantic_mcp.Domain.Types.{Concept}
use go_tahu_okf_semantic_mcp.Domain.Fakes.{refs_under}
use go_tahu_okf_semantic_mcp.Domain.Fakes.Listing.{IsUnder, refs_under_iff}

abbrev guide : ConceptRef
guide = record { bundle_alias = codes "kb"; relative_path = codes "docs/a.md" }

abbrev guides : Map Concept
guides =
    (
      codes "kb:docs/a.md",
      record {
        ref = guide;
        frontmatter = record {
          type = codes "note";
          title = [];
          description = [];
          resource = [];
          tags = [];
          timestamp = 0;
          extra = [];
        };
        body = codes "text";
        outbound_links = [];
      },
    )
    ∷ []

refs_under_iff_example :
    Memᴰ guide (refs_under (codes "kb") (codes "doc") guides)
    ↔ IsUnder (codes "kb") (codes "doc") guides guide
refs_under_iff_example = refs_under_iff (codes "kb") (codes "doc") guides guide
