-- ===== src/Kernel/Layers/Combine/Merge.antt =====
-- What merged pages keep.
use stigmergy.Prelude.{◌≡◌, ◌⊎◌, Bool, some, List, In, Text}
use stigmergy.Kernel.Layers.Body.{Block, Part, Body}
use stigmergy.Kernel.Layers.Combine.{unit_key, part_key, target}

module _ (fold casefold : Text → Text) where
  abbrev key : Block → Text
  key u = unit_key fold casefold u.text

  -- A section that merges with another keeps its heading.
  record Grows (g h : Part) : Type 0 where
    same_heading : h.heading ≡ g.heading
    more : (u : Block) → In u g.units → In u h.units

  -- a unit of a section is in a section with the same key
  abbrev pub Placed : Part → Block → List Part → Type 0
  Placed s u gs =
      (g : Part) × In g gs × (part_key fold casefold g ≡ part_key fold casefold s) × In u g.units

  -- a unit with the same key, or one that links to the same page
  abbrev pub Covered : Bool → Block → List Block → Type 0
  Covered connections u us =
      (v : Block) × In v us
      × ((key v ≡ key u)
          ⊎ ((t : Text) × (target fold casefold connections v ≡ some t)
              × (target fold casefold connections u ≡ some t)))
