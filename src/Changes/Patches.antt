-- ===== src/Changes/Patches.antt =====
-- src/stigmergy/changes/diff.py: the patch of each path in a commit's patch. The standard library's
-- `shlex.split` is written out as far as a patch's header meets it.
pub mod Headers
pub mod Sections
use stigmergy.Prelude.{
  ℕ, Bool, true, false, ◌&&◌, ◌||◌, not, Option, none, some, List, [], ◌∷◌, ◌++◌, ◌==◌, is_some,
  if◌then◌else◌, Text, codes, text_eq, is_empty, after_prefix,
}
use stigmergy.Index.Fragments.Lines.{split_lines}

-- where `shlex` stands: between words, in a word, in quotes, behind a backslash in a word or in quotes
pub data Mode : Type 0 where
  between in_word in_escape in_quoted_escape : Mode
  in_quotes : ℕ → Mode

abbrev pub is_gap : ℕ → Bool
is_gap c = (c == b' ' || c == b'\t') || (c == b'\r' || c == b'\n')

abbrev pub is_quote : ℕ → Bool
is_quote c = c == 34 || c == 39

-- in a word, at a character that is no gap
abbrev pub word_step : Text → ℕ → Mode × Text
word_step token c =
    if is_quote c
    then (in_quotes c, token)
    else if c == 92
    then (in_escape, token)
    else (in_word, token ++ c ∷ [])

-- the next mode, the token so far, and the word that ends here
abbrev pub next : Mode → Text → ℕ → (Mode × Text) × Option Text
next between token c = (if is_gap c then (between, []) else word_step [] c, none)
next in_word token c = if is_gap c then ((between, []), some token) else (word_step token c, none)
next in_escape token c = ((in_word, token ++ c ∷ []), none)
next in_quoted_escape token c =
    ((in_quotes 34, token ++ (if c == 92 || c == 34 then c ∷ [] else 92 ∷ c ∷ [])), none)
next (in_quotes q) token c =
    if c == q
    then ((in_word, token), none)
    else if c == 92 && q == 34
    then ((in_quoted_escape, token), none)
    else ((in_quotes q, token ++ c ∷ []), none)

-- No closing quotation, or nothing behind a backslash, is a ValueError.
abbrev pub finish : Mode → Text → Option (List Text)
finish between token = some []
finish in_word token = some (token ∷ [])
finish _ token = none

abbrev pub emit : Option Text → Option (List Text) → Option (List Text)
emit none rest = rest
emit (some w) none = none
emit (some w) (some ws) = some (w ∷ ws)

unfoldable pub shell_words : Mode → Text → Text → Option (List Text)
shell_words m token [] = finish m token
shell_words m token (c ∷ cs) = let s = next m token c in emit s.1 (shell_words s.0.0 s.0.1 cs)

abbrev pub git_header : Text
git_header = codes "diff --git "

abbrev pub same_path : Option Text → Option Text → Option Text
same_path (some before) (some after) = if text_eq before after then some after else none
same_path _ _ = none

-- the path that four words of a header name twice
unfoldable pub from_words : Option (List Text) → Option Text
from_words (some (diff ∷ (git ∷ (before ∷ (after ∷ []))))) =
    if text_eq diff (codes "diff") && text_eq git (codes "--git")
    then same_path (after_prefix (codes "a/") before) (after_prefix (codes "b/") after)
    else none
from_words _ = none

-- the first " b/" with the same text before and behind it
unfoldable pub from_halves : Text → Text → Option Text
from_halves before [] = none
from_halves before (c ∷ cs) =
    let later = from_halves (before ++ c ∷ []) cs in
    elim (after_prefix (codes " b/") (c ∷ cs)) [
      | none ↦ later
      | some after ↦ if text_eq before after then some after else later
    ]

-- raw.removeprefix("diff --git ")
abbrev pub without_prefix : Text → Text
without_prefix line = elim (after_prefix git_header line) [ none ↦ line | some raw ↦ raw ]

abbrev pub from_raw : Text → Option Text
from_raw raw = elim (after_prefix (codes "a/") raw) [
  | none ↦ none
  | some rest ↦ from_halves [] rest
]

-- `_header_path`
unfoldable pub header_path : Text → Option Text
unfolding shell_words from_words from_halves
header_path line = elim (from_words (shell_words between [] line)) [
  | some path ↦ some path
  | none ↦ from_raw (without_prefix line)
]

-- line.rstrip("\n")
unfoldable pub chomp : Text → Text
chomp [] = []
chomp (c ∷ cs) = let rest = chomp cs in if is_empty rest && c == 10 then [] else c ∷ rest

-- result[path] = text
unfoldable pub put : Text → Text → List (Text × Text) → List (Text × Text)
put k v [] = (k, v) ∷ []
put k v ((j, w) ∷ d) = let rest = put k v d in if text_eq j k then (k, v) ∷ d else (j, w) ∷ rest

unfoldable pub close : Option Text → Text → List (Text × Text) → List (Text × Text)
unfolding put
close none text result = result
close (some path) text result = put path text result

abbrev pub is_header : Text → Bool
is_header line = is_some (after_prefix git_header line)

abbrev pub longer : Option Text → Text → Text → Text
longer none text line = text
longer (some path) text line = text ++ line

-- the loop of `path_patches`: the path, its lines so far, and the patches of the paths before it
unfoldable pub collect : Option Text → Text → List (Text × Text) → List Text → List (Text × Text)
unfolding header_path chomp close
collect path text result [] = close path text result
collect path text result (line ∷ lines) =
    let starts = is_header line in
    collect (if starts then header_path (chomp line) else path)
      (if starts then line else longer path text line)
      (if starts then close path text result else result) lines

unfoldable pub path_patches : Text → List (Text × Text)
unfolding collect split_lines
path_patches patch = collect none [] [] (split_lines patch)
