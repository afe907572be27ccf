-- ===== src/Index/Fragments/Windows.antt =====
-- src/stigmergy/index/fragments.py: `_windows`. A window is the list of its lines and `begin` is where
-- the list of the lines left starts, so that `lines[begin:stop]` is the window and the lines from
-- `stop` on stand behind it.
use stigmergy.Prelude.{
  ℕ, zero, suc, ◌+◌, ◌/◌, ◌&&◌, ◌||◌, Option, none, some, List, [], ◌∷◌, ◌++◌, ltb, leb, min,
  if◌then◌else◌, is_empty, length,
}
use stigmergy.Index.Fragments.Lines.{Line, window_words, overlap_cap_words, max_fragment_bytes}

abbrev pub section_max_words : ℕ
section_max_words = 400

abbrev pub overlap_words : ℕ
overlap_words = 50

-- WINDOW_WORDS * 0.6
abbrev pub paragraph_words : ℕ
paragraph_words = 210

abbrev pub sum_words : List Line → ℕ
sum_words [] = 0
sum_words (l ∷ ls) = l.words + sum_words ls

-- `size(start, stop)`, the difference of two cumulative sums
abbrev pub sum_bytes : List Line → ℕ
sum_bytes [] = 0
sum_bytes (l ∷ ls) = l.size + sum_bytes ls

-- a window and the lines from its end on
pub record Split : Type 0 where
  pub window : List Line
  pub after : List Line

-- the lines after the first that still fit
unfoldable pub grow : ℕ → ℕ → List Line → Split
grow words bytes [] = record { window = []; after = [] }
grow words bytes (l ∷ ls) =
    let more = grow (words + l.words) (bytes + l.size) ls in
    if leb (words + l.words) window_words && leb (bytes + l.size) max_fragment_bytes
    then record { window = l ∷ more.window; after = more.after }
    else record { window = []; after = l ∷ ls }

-- the lines before the last blank one, that line, and the lines behind it
pub record Paragraph : Type 0 where
  pub before : List Line
  pub blank_line : Line
  pub behind : List Line

unfoldable pub last_blank : List Line → Option Paragraph
last_blank [] = none
last_blank (l ∷ ls) = elim (last_blank ls) [
  | some p ↦ some (record p { before = l ∷ p.before })
  | none ↦ if l.blank then some (record { before = []; blank_line = l; behind = ls }) else none
]

-- ends the window of `l` and `rest` at its last blank line, if enough words stand before that
unfoldable pub at_paragraph : Line → List Line → List Line → Split
unfolding last_blank
at_paragraph l rest after = elim (last_blank rest) [
  | none ↦ record { window = l ∷ rest; after = after }
  | some p ↦
      if leb paragraph_words (sum_words (l ∷ p.before))
      then record { window = l ∷ (p.before ++ p.blank_line ∷ []); after = p.behind ++ after }
      else record { window = l ∷ rest; after = after }
]

-- lines[begin:stop]
unfoldable pub window_of : Line → List Line → Split
unfolding grow at_paragraph
window_of l ls =
    let grown = grow l.words l.size ls in
    if is_empty grown.after
    then record { window = l ∷ grown.window; after = [] }
    else at_paragraph l grown.window grown.after

abbrev pub reverse_onto : List Line → List Line → List Line
reverse_onto [] acc = acc
reverse_onto (l ∷ ls) acc = reverse_onto ls (l ∷ acc)

-- `back` moves over the lines of the window from its last one on, never to its first line.
unfoldable pub carry : ℕ → ℕ → ℕ → ℕ → List Line → List Line → List Line
carry word_room byte_room words bytes kept [] = kept
carry word_room byte_room words bytes kept (l ∷ ls) =
    let more = carry word_room byte_room (words + l.words) (bytes + l.size) (l ∷ kept) ls in
    if ltb words overlap_words
      && (leb (words + l.words) word_room && leb (bytes + l.size) byte_room)
    then more
    else kept

-- the lines of the window that the next one starts with, `next` being the first line after it
unfoldable pub overlap : Line → List Line → Line → List Line
unfolding carry
overlap l rest next =
    let window = l ∷ rest in
    let word_room = min overlap_cap_words (sum_words window / 4) in
    let carried = carry word_room (sum_bytes window / 4) 0 0 [] (reverse_onto rest []) in
    if ltb window_words (sum_words carried + next.words)
      || ltb max_fragment_bytes (sum_bytes carried + next.size)
    then []
    else carried

pub record Span : Type 0 where
  pub start : ℕ
  pub end : ℕ

abbrev pub last_end : ℕ → List Line → ℕ
last_end e [] = e
last_end e (l ∷ ls) = last_end l.end ls

abbrev pub span_of : Line → List Line → Span
span_of l rest = record { start = l.start; end = last_end l.end rest }

-- the rest of a window whose first line is known
abbrev pub tail_of : List Line → List Line
tail_of [] = []
tail_of (l ∷ ls) = ls

-- The loop, on at most as many windows as there are lines.
unfoldable pub slide : ℕ → List Line → List Span
unfolding window_of overlap
slide zero ls = []
slide (suc fuel) [] = []
slide (suc fuel) (l ∷ ls) =
    let cut = window_of l ls in
    let rest = tail_of cut.window in
    elim cut.after [
      | [] ↦ span_of l rest ∷ []
      | next ∷ more ↦ span_of l rest ∷ slide fuel (overlap l rest next ++ next ∷ more)
    ]

-- `_windows`, on the lines of the section
unfoldable pub windows : List Line → List Span
unfolding slide
windows [] = []
windows (l ∷ ls) =
    if leb (sum_words (l ∷ ls)) section_max_words && leb (sum_bytes (l ∷ ls)) max_fragment_bytes
    then span_of l ls ∷ []
    else slide (length (l ∷ ls)) (l ∷ ls)
