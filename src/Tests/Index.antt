-- ===== src/Tests/Index.antt =====
-- The fragments of src/stigmergy/index/fragments.py: a short page and lines that need two windows.
use stigmergy.Prelude.{ℕ, ◌+◌, ◌≤◌, ◌≡◌, refl, false, ◌⊎◌, none, [], ◌∷◌, arith, Text, codes, All}
use stigmergy.Index.Fragments.Lines.{Line, byte_size, max_fragment_bytes}
use stigmergy.Index.Fragments.Windows.{windows}
use stigmergy.Index.Fragments.Cut.{Fragment, PageRow, source, entity, whole, fragment, pieces_of}
use stigmergy.Index.Fragments.Chain.{Covers}
use stigmergy.Index.Fragments.Advance.{windows-Covers}
use stigmergy.Index.Fragments.Reassemble.{rejoined, fragment_reassembles}
use stigmergy.Index.Fragments.Pieces.{pieces_of-bounded}

abbrev page : Text
page = codes "## Terms\nNet thirty days.\n"

abbrev line_at : ℕ → ℕ → ℕ → Line
line_at start words size = record {
  start = start;
  end = start + size;
  words = words;
  blank = false;
  size = size;
}

fragment_reassembles_example : rejoined 0 (fragment page false) ≡ page
fragment_reassembles_example = fragment_reassembles page false

abbrev source_row : PageRow
source_row = record {
  path = "sources/1.md";
  vpath = "sources/1.md";
  title = codes "Terms";
  acl = none;
  type = source;
  body = page;
}

pieces_of-bounded_example :
    All (λ (f : Fragment). byte_size f.text ≤ max_fragment_bytes) (pieces_of source_row false)
    ⊎ ((source_row.type ≡ entity)
        × (false ≡ false)
        × (pieces_of source_row false ≡ whole page ∷ []))
pieces_of-bounded_example = pieces_of-bounded source_row false

windows-Covers_example :
    Covers 0 (windows (line_at 0 200 1200 ∷ line_at 1200 40 200 ∷ line_at 1400 170 900 ∷ [])) 2300
windows-Covers_example =
    windows-Covers 0 2300 (line_at 0 200 1200) (line_at 1200 40 200 ∷ line_at 1400 170 900 ∷ []) (
      refl,
      omega arith,
      omega arith,
      (refl, omega arith, omega arith, (refl, omega arith, omega arith, refl)),
    )
