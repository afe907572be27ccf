-- ===== src/Kernel/Layers/Body.antt =====
-- src/stigmergy/kernel/layers.py: the bodies of pages as sections of units (`parse_body`, and `render_body`
-- without marks). `is_digit` is \d of one character.
use stigmergy.Prelude.{
  ℕ, String, Bool, true, false, ◌&&◌, ◌||◌, not, Option, none, some, List, [], ◌∷◌, ◌++◌, leb, ◌==◌,
  if◌then◌else◌, length, keep, any, is_some, Text, codes, join, strip, rstrip, split_at,
  after_prefix, is_space, is_empty,
}
use stigmergy.Index.Fragments.Lines.{take_while, drop_while}

pub data Kind : Type 0 where
  unit_item paragraph callout : Kind

pub record Block : Type 0 where
  pub kind : Kind
  pub text : Text
  pub layer : String

pub record Part : Type 0 where
  pub heading : Option Text
  pub units : List Block

pub record Body : Type 0 where
  pub title_line : Text
  pub parts : List Part

abbrev pub is_item : Kind → Bool
is_item unit_item = true
is_item _ = false

-- _PUNCTUATION
abbrev pub plain : ℕ → ℕ
plain c =
    if (leb 0x2010 c && leb c 0x2014) || c == 0x2212
    then 0x2D
    else if c == 0x2018 || c == 0x2019
    then 0x27
    else if c == 0x201C || c == 0x201D
    then 0x22
    else c

abbrev pub starts : String → Text → Bool
starts prefix line = is_some (after_prefix (codes prefix) line)

-- _HEADING_RE: ^#{2,6}\s+\S
unfoldable pub is_heading : Text → Bool
unfolding is_space
is_heading line =
    let level = length (take_while (λ c. c == b'#') line) in
    let rest = drop_while (λ c. c == b'#') line in
    (leb 2 level && leb level 6)
    && (not (is_empty (take_while is_space rest)) && not (is_empty (drop_while is_space rest)))

abbrev is_newline : ℕ → Bool
is_newline c = c == 10

abbrev drop_last : (ℕ → Bool) → Text → Text
drop_last p [] = []
drop_last p (c ∷ cs) = let rest = drop_last p cs in if is_empty rest && p c then [] else c ∷ rest

-- s.strip("\n")
abbrev pub strip_newlines : Text → Text
strip_newlines s = drop_last is_newline (drop_while is_newline s)

-- the state of the loop of `parse_body`: the sections before the last one, the last one's heading and
-- units, the lines and the kind of the unit that is read, and the lines of an open callout
pub record Parsing : Type 0 where
  pub before : List Part
  pub heading : Option Text
  pub units : List Block
  pub current : List Text
  pub kind : Kind
  pub fenced : Bool
  pub block : Option (List Text)

module _ (is_digit : ℕ → Bool) (layer : String) where
  -- _ITEM_RE: ^(?:[-*+]|\d{1,9}[.)])\s+
  abbrev after_marker : Text → Bool
  after_marker [] = false
  after_marker (c ∷ []) = false
  after_marker (c ∷ d ∷ cs) = (c == b'.' || c == b')') && is_space d

  abbrev after_bullet : Text → Bool
  after_bullet [] = false
  after_bullet (c ∷ []) = false
  after_bullet (c ∷ d ∷ cs) = (c == b'-' || c == b'*' || c == b'+') && is_space d

  unfoldable pub is_item_line : Text → Bool
  unfolding is_space
  is_item_line line =
      let number = length (take_while is_digit line) in
      after_bullet line
      || ((leb 1 number && leb number 9) && after_marker (drop_while is_digit line))

  abbrev has_text : List Text → Bool
  has_text lines = any (λ l. not (is_empty (strip l))) lines

  -- `flush`
  unfoldable pub flush : Parsing → Parsing
  unfolding strip join
  flush p = record p {
    units =
        if has_text p.current
        then p.units
          ++ record {
            kind = p.kind;
            text = strip_newlines (join (codes "\n") p.current);
            layer = layer;
          }
            ∷ []
        else p.units;
    current = [];
    kind = paragraph;
  }

  abbrev end_callout : List Text → Parsing → Parsing
  end_callout lines p = record p {
    units =
        p.units ++ record { kind = callout; text = join (codes "\n") lines; layer = layer } ∷ [];
    block = none;
  }

  abbrev end_section : Parsing → List Part
  end_section p = p.before ++ record { heading = p.heading; units = p.units } ∷ []

  abbrev add_line : Text → Parsing → Parsing
  add_line line p = record p { current = p.current ++ line ∷ [] }

  abbrev in_callout : List Text → Text → Parsing → Parsing
  in_callout lines line p =
      if starts "<!-- stigmergy-contradiction-end:" line
      then end_callout (lines ++ line ∷ []) p
      else record p { block = some (lines ++ line ∷ []) }

  abbrev is_fence_line : Text → Bool
  is_fence_line line = starts "```" (strip line)

  -- a line outside fences and callouts; without a kind of its own a unit is a paragraph
  unfoldable pub plain_line : Text → Parsing → Parsing
  unfolding flush is_heading is_item_line rstrip strip after_prefix
  plain_line line p =
      if starts "<!-- stigmergy-contradiction-start:" line
      then record (flush p) { block = some (line ∷ []) }
      else if is_fence_line line
      then (let q = if is_item p.kind then p else flush p in
          record (add_line line q) { fenced = true })
      else if is_heading line
      then (let q = flush p in
          record q { before = end_section q; heading = some (rstrip line); units = [] })
      else if is_empty (strip line)
      then flush p
      else if is_item_line line
      then record (add_line line (flush p)) { kind = unit_item }
      else add_line line p

  unfoldable pub parse_line : Text → Parsing → Parsing
  unfolding plain_line strip after_prefix
  parse_line line p = elim p.block [
    | some lines ↦ in_callout lines line p
    | none ↦
        if p.fenced
        then record (add_line line p) { fenced = not (is_fence_line line) }
        else plain_line line p
  ]

  unfoldable pub parse_lines : List Text → Parsing → Parsing
  unfolding parse_line
  parse_lines [] p = p
  parse_lines (l ∷ ls) p = parse_lines ls (parse_line l p)

  unfoldable pub parse_end : Parsing → List Part
  unfolding flush join
  parse_end p =
      keep (λ s. is_some s.heading || not (is_empty s.units))
        (end_section (flush (elim p.block [ none ↦ p | some lines ↦ end_callout lines p ])))

  abbrev skip_blank : List Text → List Text
  skip_blank [] = []
  skip_blank (l ∷ ls) = let rest = skip_blank ls in if is_empty (strip l) then rest else l ∷ ls

  abbrev start_parsing : Parsing
  start_parsing = record {
    before = [];
    heading = none;
    units = [];
    current = [];
    kind = paragraph;
    fenced = false;
    block = none;
  }

  abbrev parse_rest : List Text → Body
  parse_rest [] = record { title_line = []; parts = parse_end start_parsing }
  parse_rest (l ∷ ls) =
      if starts "# " l
      then record { title_line = rstrip l; parts = parse_end (parse_lines ls start_parsing) }
      else record { title_line = []; parts = parse_end (parse_lines (l ∷ ls) start_parsing) }

  unfoldable pub parse_body : Text → Body
  unfolding parse_end parse_lines strip rstrip split_at after_prefix
  parse_body body = parse_rest (skip_blank (split_at 10 (strip_newlines body)))

abbrev gap : Kind → Kind → Text
gap before next = if is_item before && is_item next then codes "\n" else codes "\n\n"

abbrev pub render_units : List Block → Text
render_units [] = []
render_units (u ∷ []) = u.text
render_units (u ∷ v ∷ us) = u.text ++ (gap u.kind v.kind ++ render_units (v ∷ us))

abbrev filled : Text → List Text
filled [] = []
filled (c ∷ cs) = (c ∷ cs) ∷ []

abbrev lead : Option Text → List Text
lead none = []
lead (some h) = h ∷ []

abbrev pub render_part : Part → List Text
render_part s =
    if is_empty s.units && is_some s.heading
    then []
    else (let chunk = lead s.heading ++ filled (render_units s.units) in
        if is_empty chunk then [] else join (codes "\n") chunk ∷ [])

abbrev render_parts : List Part → List Text
render_parts [] = []
render_parts (s ∷ ss) = render_part s ++ render_parts ss

-- `render_body` with mark=False
unfoldable pub render_body : Body → Text
unfolding join strip
render_body b =
    let parts = filled b.title_line ++ render_parts b.parts in
    if is_empty parts then [] else strip (join (codes "\n\n") parts) ++ codes "\n"
