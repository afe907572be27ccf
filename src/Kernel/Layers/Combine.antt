-- ===== src/Kernel/Layers/Combine.antt =====
-- src/stigmergy/kernel/layers.py: what a layer's page adds to the public one (`_combine` without the
-- order by dates, `_dedupe`, `merge_for_writing` and `split_from_public`). `fold` is NFKC and `casefold`
-- is str.casefold.
pub mod Merge
use stigmergy.Prelude.{
  ℕ, suc, ◌+◌, ◌≡◌, refl, String, Bool, true, false, ◌&&◌, ◌||◌, not, Option, none, some, List, [],
  ◌∷◌, ◌++◌, map, leb, ◌==◌, if◌then◌else◌, length, keep, any, is_some, Text, text_eq, codes, join,
  strip, rstrip, split, split_at, after_prefix, is_space, is_empty, one_line,
}
use stigmergy.Index.Fragments.Lines.{take_while}
use stigmergy.Kernel.Layers.Body.{Kind, Block, Part, Body, is_item, plain, parse_body, render_body}

-- _WIKILINK_RE.search: \[\[([^\[\]|#]+)
abbrev in_link : ℕ → Bool
in_link c = not (c == b'[' || c == b']' || c == b'|' || c == b'#')

unfoldable pub wikilink : Text → Option Text
unfolding after_prefix
wikilink [] = none
wikilink (c ∷ cs) =
    let later = wikilink cs in
    elim (after_prefix (codes "[[") (c ∷ cs)) [
      | none ↦ later
      | some rest ↦ let name = take_while in_link rest in if is_empty name then later else some name
    ]

module _ (fold casefold : Text → Text) where
  -- `unit_key`
  unfoldable pub unit_key : Text → Text
  unfolding one_line
  unit_key value = one_line (map plain (fold value))

  abbrev pub part_key : Part → Option Text
  part_key s = elim s.heading [ none ↦ none | some h ↦ some (casefold (unit_key h)) ]

  abbrev pub opt_eq : Option Text → Option Text → Bool
  opt_eq none none = true
  opt_eq (some a) (some b) = text_eq a b
  opt_eq _ _ = false

  abbrev pub has : Text → List Text → Bool
  has t ts = any (λ s. text_eq s t) ts

  -- what an item of the connections links to
  unfoldable pub target : Bool → Block → Option Text
  unfolding wikilink strip
  target connections u =
      if connections && is_item u.kind
      then elim (wikilink u.text) [ none ↦ none | some name ↦ some (casefold (strip name)) ]
      else none

  abbrev pub known : Option Text → List Text → Bool
  known none ts = false
  known (some t) ts = has t ts

  abbrev pub noted : Option Text → List Text → List Text
  noted none ts = ts
  noted (some t) ts = t ∷ ts

  -- `_dedupe`, with the keys seen and the targets
  unfoldable pub dedupe : Bool → List Text → List Text → List Block → List Block
  unfolding unit_key target text_eq
  dedupe connections seen targets [] = []
  dedupe connections seen targets (u ∷ us) =
      elim (has (unit_key u.text) seen || known (target connections u) targets) [
        | true ↦ dedupe connections seen targets us
        | false ↦
            u
            ∷ dedupe connections (unit_key u.text ∷ seen) (noted (target connections u) targets) us
      ]

  -- the sections with one key, in the order of their first one
  unfoldable pub add_part : Part → List Part → List Part
  unfolding unit_key text_eq
  add_part s [] = s ∷ []
  add_part s (g ∷ gs) =
      let rest = add_part s gs in
      if opt_eq (part_key g) (part_key s)
      then record g { units = g.units ++ s.units } ∷ gs
      else g ∷ rest

  unfoldable pub group : List Part → List Part → List Part
  unfolding add_part
  group groups [] = groups
  group groups (s ∷ ss) = group (add_part s groups) ss

  abbrev first_title : List Body → Text
  first_title [] = []
  first_title (b ∷ bs) =
      let rest = first_title bs in if is_empty b.title_line then rest else b.title_line

  abbrev pub all_parts : List Body → List Part
  all_parts [] = []
  all_parts (b ∷ bs) = b.parts ++ all_parts bs

  abbrev pub is_connections : Part → Bool
  is_connections s = opt_eq (part_key s) (some (codes "## connections"))

  abbrev pub deduped : Part → Part
  deduped s = record s { units = dedupe (is_connections s) [] [] s.units }

  -- `_combine` with date_order=False
  unfoldable pub combine : List Body → Body
  unfolding group dedupe unit_key text_eq
  combine bodies = record {
    title_line = first_title bodies;
    parts = map deduped (group [] (all_parts bodies));
  }

  module _ (is_digit : ℕ → Bool) where
    unfoldable pub merge_for_writing : Text → Text → String → Text
    unfolding parse_body combine render_body
    merge_for_writing shared layer_body layer =
        render_body (
          combine (parse_body is_digit "public" shared ∷ parse_body is_digit layer layer_body ∷ []))

    abbrev keys_of : List Part → List Text
    keys_of [] = []
    keys_of (s ∷ ss) = map (λ u. unit_key u.text) s.units ++ keys_of ss

    abbrev pub left_of : List Text → Part → Part
    left_of names s = record s { units = keep (λ u. not (has (unit_key u.text) names)) s.units }

    unfoldable pub split_from_public : Text → Text → Text
    unfolding parse_body render_body unit_key text_eq
    split_from_public body shared =
        let parsed = parse_body is_digit "public" body in
        let names = keys_of (parse_body is_digit "public" shared).parts in
        let kept = keep (λ s. not (is_empty s.units)) (map (left_of names) parsed.parts) in
        if is_empty kept
        then []
        else render_body (record { title_line = parsed.title_line; parts = kept })
