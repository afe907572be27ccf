-- ===== src/Index/Fragments/Lines.antt =====
-- src/stigmergy/index/fragments.py: `_size`, `_lines`, `_pieces` and `_within`. A text is the list of
-- its code points; what the code reads from an offset on is the rest of the text there.
use stigmergy.Prelude.{
  ℕ, zero, suc, ◌+◌, ◌-◌, Bool, false, ◌&&◌, ◌||◌, not, List, [], ◌∷◌, ◌++◌, ltb, leb, ◌==◌, max,
  if◌then◌else◌, length, take, drop, Text, is_space, is_empty,
}

abbrev pub window_words : ℕ
window_words = 350

abbrev pub overlap_cap_words : ℕ
overlap_cap_words = 100

abbrev pub max_fragment_bytes : ℕ
max_fragment_bytes = 4000

-- the bytes of one code point in UTF-8
abbrev pub char_size : ℕ → ℕ
char_size c = if ltb c 0x80 then 1 else if ltb c 0x800 then 2 else if ltb c 0x1_0000 then 3 else 4

-- `_size`
unfoldable pub byte_size : Text → ℕ
byte_size [] = 0
byte_size (c ∷ cs) = char_size c + byte_size cs

pub record Line : Type 0 where
  pub start : ℕ
  pub end : ℕ
  pub words : ℕ
  pub blank : Bool
  pub size : ℕ

-- the characters at which str.splitlines ends a line
abbrev pub is_break : ℕ → Bool
is_break c =
    (leb 10 c && leb c 13) || (leb 28 c && leb c 30) || c == 0x85 || c == 0x2028 || c == 0x2029

abbrev pub starts_with : ℕ → Text → Bool
starts_with c [] = false
starts_with c (d ∷ ds) = d == c

abbrev pub attach : ℕ → List Text → List Text
attach c [] = (c ∷ []) ∷ []
attach c (l ∷ ls) = (c ∷ l) ∷ ls

-- body.splitlines(keepends=True); "\r\n" is one end
unfoldable pub split_lines : Text → List Text
split_lines [] = []
split_lines (c ∷ cs) =
    let rest = split_lines cs in
    if is_break c && not (c == 13 && starts_with 10 cs) then (c ∷ []) ∷ rest else attach c rest

abbrev starts_word : Text → Bool
starts_word [] = false
starts_word (c ∷ cs) = not (is_space c)

-- len(_WORD.findall(raw)): a word is counted at its last character
unfoldable pub count_words : Text → ℕ
unfolding is_space
count_words [] = 0
count_words (c ∷ cs) =
    let rest = count_words cs in if is_space c || starts_word cs then rest else suc rest

module _ (p : ℕ → Bool) where
  abbrev pub take_while : Text → Text
  take_while [] = []
  take_while (c ∷ cs) = let rest = take_while cs in if p c then c ∷ rest else []

  abbrev pub drop_while : Text → Text
  drop_while [] = []
  drop_while (c ∷ cs) = let rest = drop_while cs in if p c then rest else c ∷ cs

abbrev pub in_word : ℕ → Bool
in_word c = not (is_space c)

pub record Run : Type 0 where
  pub taken : Text
  pub count : ℕ
  pub size : ℕ

-- The scan for words from `start` on, `left` words short of the cap: `stop` moves past each word with
-- the blanks before it, while the bytes fit.
unfoldable pub take_words : ℕ → ℕ → Text → Run
unfolding byte_size is_space
take_words zero size seen = record { taken = []; count = 0; size = size }
take_words (suc left) size seen =
    let gap = take_while is_space seen in
    let after = drop_while is_space seen in
    let word = take_while in_word after in
    let grown = size + byte_size (gap ++ word) in
    let more = take_words left grown (drop_while in_word after) in
    if is_empty word || ltb max_fragment_bytes grown
    then record { taken = []; count = 0; size = size }
    else record { taken = (gap ++ word) ++ more.taken; count = suc more.count; size = more.size }

-- `_within`: the longest beginning whose bytes fit, cut on a character
unfoldable pub within : ℕ → Text → Text
within limit [] = []
within limit (c ∷ cs) =
    let rest = within (limit - char_size c) cs in if leb (char_size c) limit then c ∷ rest else []

-- nothing past this many characters can fit in a piece
abbrev pub reach : ℕ
reach = 4001

pub record Piece : Type 0 where
  pub text : Text
  pub words : ℕ

-- raw[start:stop] and its bytes; a run without blanks is cut at a character
abbrev pub up_to_stop : Run → Text → Text × ℕ
up_to_stop run raw =
    if is_empty run.taken
    then (let fits = within max_fragment_bytes raw in (fits, byte_size fits))
    else (run.taken, run.size)

-- one piece: to `stop`, and with the blanks behind it where they fit
unfoldable pub piece : Text → Piece
unfolding take_words within byte_size is_space
piece raw =
    let run = take_words overlap_cap_words 0 (take reach raw) in
    let (head, size) = up_to_stop run raw in
    let gap = take_while is_space (take reach (drop (length head) raw)) in
    record {
      text = if ltb max_fragment_bytes (size + byte_size gap) then head else head ++ gap;
      words = max 1 run.count;
    }

-- `_pieces`, on at most as many pieces as there are characters
unfoldable pub pieces : ℕ → ℕ → Text → List Line
unfolding piece byte_size
pieces zero offset raw = []
pieces (suc fuel) offset [] = []
pieces (suc fuel) offset (c ∷ cs) =
    let cut = piece (c ∷ cs) in
    let end = offset + length cut.text in
    record {
      start = offset;
      end = end;
      words = cut.words;
      blank = false;
      size = byte_size cut.text;
    }
    ∷ pieces fuel end (drop (length cut.text) (c ∷ cs))

abbrev pub one_line_of : ℕ → Text → Line
one_line_of offset raw = record {
  start = offset;
  end = offset + length raw;
  words = count_words raw;
  blank = count_words raw == 0;
  size = byte_size raw;
}

abbrev pub lines_from : ℕ → List Text → List Line
lines_from offset [] = []
lines_from offset (raw ∷ rest) =
    (if leb (count_words raw) window_words && leb (byte_size raw) max_fragment_bytes
      then one_line_of offset raw ∷ []
      else pieces (length raw) offset raw)
    ++ lines_from (offset + length raw) rest

-- `_lines`
unfoldable pub lines_of : Text → List Line
unfolding split_lines count_words pieces
lines_of body = lines_from 0 (split_lines body)
