-- ===== src/Index/Fragments/Sections.antt =====
-- src/stigmergy/index/fragments.py: `_sections`, `_merged` and `_joined`, with the headings and fences
-- that the patterns _HEADING and _FENCE match.
use stigmergy.Prelude.{
  ℕ, suc, ◌-◌, Bool, true, false, ◌&&◌, ◌||◌, not, Option, none, some, List, [], ◌∷◌, ◌++◌, map,
  ltb, leb, ◌==◌, if◌then◌else◌, length, take, drop, keep, is_some, sort_by, Text, codes, join,
  strip, after_prefix, is_space, is_empty,
}
use stigmergy.Index.Fragments.Lines.{Line, take_while, drop_while}
use stigmergy.Index.Fragments.Windows.{sum_words}

abbrev pub min_section_words : ℕ
min_section_words = 40

abbrev pub heading_chars : ℕ
heading_chars = 120

abbrev pub trail_chars : ℕ
trail_chars = 300

pub record Section : Type 0 where
  pub first : ℕ
  pub last : ℕ
  pub trail : Text

-- body[start:end]
abbrev pub slice {ℓ} : {A : Type ℓ} → ℕ → ℕ → List A → List A
slice start end xs = take (end - start) (drop start xs)

abbrev trim_right : (ℕ → Bool) → Text → Text
trim_right p [] = []
trim_right p (c ∷ cs) = let rest = trim_right p cs in if is_empty rest && p c then [] else c ∷ rest

abbrev is_gap : ℕ → Bool
is_gap c = c == 32 || c == 9

abbrev is_closing : ℕ → Bool
is_closing c = is_gap c || c == b'#'

pub record Heading : Type 0 where
  pub level : ℕ
  pub name : Text

abbrev named : ℕ → Text → Option Heading
named level [] = none
named level (c ∷ cs) =
    if is_space c
    then none
    else some (record { level = level; name = c ∷ trim_right is_closing cs })

-- _HEADING: ^(#{1,6})[ \t]+(\S.*?)[ \t#]*$
unfoldable pub heading : Text → Option Heading
unfolding is_space
heading text =
    let level = length (take_while (λ c. c == b'#') text) in
    let rest = drop_while (λ c. c == b'#') text in
    if (leb 1 level && leb level 6) && not (is_empty (take_while is_gap rest))
    then named level (drop_while is_gap rest)
    else none

-- _FENCE: ^\s{0,3}(```|~~~)
unfoldable pub is_fence : Text → Bool
unfolding is_space after_prefix
is_fence text =
    let mark = drop_while is_space text in
    leb (length (take_while is_space text)) 3
    && (is_some (after_prefix (codes "```") mark) || is_some (after_prefix (codes "~~~") mark))

pub record Crumb : Type 0 where
  pub depth : ℕ
  pub name : Text

abbrev shallower : Crumb → Crumb → Bool
shallower a b = ltb a.depth b.depth

-- the open headings above a heading, and the heading
abbrev pub under : Heading → List Crumb → List Crumb
under h trail =
    keep (λ c. ltb c.depth h.level) trail
    ++ record { depth = h.level; name = take heading_chars (strip h.name) } ∷ []

unfoldable pub trail_name : Bool → List Crumb → Text
unfolding join
trail_name source trail = take trail_chars (
    join (codes " › ")
      (map (λ c. c.name) (keep (λ c. source || leb 2 c.depth) (sort_by shallower trail))))

abbrev pub splits : Bool → Heading → Bool
splits source h = source || h.level == 2 || h.level == 3

pub record Start : Type 0 where
  pub index : ℕ
  pub name : Text

-- The headings that split, from the line at `index` on; a heading inside a code fence is text.
unfoldable pub split_heads : Bool → Bool → List Crumb → ℕ → List Text → List Start
unfolding heading is_fence trail_name strip
split_heads source fenced trail index [] = []
split_heads source fenced trail index (text ∷ rest) = elim (is_fence text) [
  | true ↦ split_heads source (not fenced) trail (suc index) rest
  | false ↦ elim (if fenced then none else heading text) [
    | none ↦ split_heads source fenced trail (suc index) rest
    | some h ↦ elim (splits source h) [
      | false ↦ split_heads source fenced trail (suc index) rest
      | true ↦
          let deeper = under h trail in
          record { index = index; name = trail_name source deeper }
          ∷ split_heads source fenced deeper (suc index) rest
    ]
  ]
]

-- text before the first split heading is the lead
abbrev pub with_lead : List Start → List Start
with_lead [] = record { index = 0; name = [] } ∷ []
with_lead (s ∷ rest) = if s.index == 0 then s ∷ rest else record { index = 0; name = [] } ∷ s ∷ rest

abbrev pub bounded : List Start → ℕ → List Section
bounded [] total = []
bounded (s ∷ []) total = record { first = s.index; last = total; trail = s.name } ∷ []
bounded (s ∷ t ∷ rest) total =
    record { first = s.index; last = t.index; trail = s.name } ∷ bounded (t ∷ rest) total

abbrev is_line_end : ℕ → Bool
is_line_end c = c == 10 || c == 13

-- the text of a line without its end
abbrev pub line_text : Text → Line → Text
line_text body l = trim_right is_line_end (slice l.start l.end body)

-- `_sections`
unfoldable pub sections : Text → List Line → Bool → List Section
unfolding split_heads
sections body lines source =
    keep (λ s. ltb s.first s.last)
      (bounded (with_lead (split_heads source false [] 0 (map (line_text body) lines)))
        (length lines))

-- `_joined`
unfoldable pub joined : Text → Text → Text
unfolding after_prefix
joined first second =
    if is_empty first || is_some (after_prefix first second)
    then second
    else if is_empty second || is_some (after_prefix second first)
    then first
    else take trail_chars (first ++ (codes ", " ++ second))

-- `_words`
abbrev pub section_words : List Line → Section → ℕ
section_words lines s = sum_words (slice s.first s.last lines)

abbrev pub join_pending : Option Section → Section → Section
join_pending none s = s
join_pending (some p) s = record { first = p.first; last = s.last; trail = joined p.trail s.trail }

-- what a pending last section becomes; `merged` has its last section first
abbrev pub close : List Section → Option Section → List Section
close merged none = merged
close [] (some p) = p ∷ []
close (l ∷ merged) (some p) =
    record { first = l.first; last = p.last; trail = joined l.trail p.trail } ∷ merged

abbrev pub backwards : List Section → List Section → List Section
backwards [] acc = acc
backwards (s ∷ rest) acc = backwards rest (s ∷ acc)

unfoldable pub merge_from : List Line → List Section → Option Section → List Section → List Section
unfolding joined
merge_from lines merged pending [] = backwards (close merged pending) []
merge_from lines merged pending (s ∷ rest) =
    let whole = join_pending pending s in
    elim (ltb (section_words lines whole) min_section_words) [
      | true ↦ merge_from lines merged (some whole) rest
      | false ↦ merge_from lines (whole ∷ merged) none rest
    ]

-- `_merged`
unfoldable pub merged : List Section → List Line → List Section
unfolding merge_from
merged sections lines = merge_from lines [] none sections
