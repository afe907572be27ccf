-- ===== src/Hygiene.antt =====
-- src/stigmergy/text.py: what untrusted text may not do in prompts, terminals and log lines. Text is the
-- list of its characters.
pub mod Fence
use stigmergy.Prelude.{
  ℕ, zero, suc, ◌+◌, ◌-◌, ◌/◌, ◌≡◌, refl, Bool, true, false, ◌&&◌, ◌||◌, not, Option, none, some,
  List, [], ◌∷◌, ◌++◌, map, leb, ltb, ◌==◌, if◌then◌else◌, is_some, length, take, keep, max, any,
  Text, codes, split, join, after_prefix, is_empty, is_space,
}

-- U+2060 WORD JOINER
abbrev pub joiner : ℕ
joiner = 0x2060

-- _FENCE_TOKEN
abbrev pub token : Text
token = codes "UNTRUSTED-DATA"

-- s.replace(old, new), for an `old` that is not empty: `skip` characters of an occurrence are left out
unfoldable pub replace_from : Text → Text → ℕ → Text → Text
unfolding after_prefix
replace_from old new skip [] = []
replace_from old new (suc skip) (c ∷ cs) = replace_from old new skip cs
replace_from old new zero (c ∷ cs) = elim (is_some (after_prefix old (c ∷ cs))) [
  | true ↦ new ++ replace_from old new (length old - 1) cs
  | false ↦ c ∷ replace_from old new 0 cs
]

unfoldable pub neutralize_fence : Text → Text
unfolding replace_from
neutralize_fence text = replace_from token (token ++ joiner ∷ []) 0 text

unfoldable pub fence : Text → Text
unfolding neutralize_fence
fence body =
    codes "<<<"
    ++ (token
        ++ (codes "\n" ++ (neutralize_fence body ++ (codes "\n" ++ (token ++ codes ";end>>>")))))

-- _CONTROL_RE
abbrev pub is_control : ℕ → Bool
is_control c = leb c 8 || (leb 0x0B c && leb c 0x1F) || (leb 0x7F c && leb c 0x9F)

unfoldable pub sanitize : Text → Text
sanitize text = keep (λ c. not (is_control c)) text

-- the place of the last blank, counted from 1; 0 is none
abbrev last_blank : Text → ℕ
last_blank [] = 0
last_blank (c ∷ cs) =
    let rest = last_blank cs in if ltb 0 rest then suc rest else if c == 32 then 1 else 0

abbrev trims : ℕ → Bool
trims c = c == 32 || c == b',' || c == b';' || c == b':' || c == b'.'

abbrev trim_end : Text → Text
trim_end [] = []
trim_end (c ∷ cs) = let rest = trim_end cs in if is_empty rest && trims c then [] else c ∷ rest

unfoldable pub clamp : Text → ℕ → Text
clamp text width =
    if width == 0 || leb (length text) width
    then text
    else (let cut = take width text in
        let blank = last_blank cut in
        let kept =
          if ltb 0 blank && leb (width - max 1 (width / 4)) (blank - 1)
          then take (blank - 1) cut
          else cut in
        trim_end kept ++ 0x2026 ∷ [])

-- `one_line`
unfoldable pub one_line_of : Text → ℕ → Text
unfolding sanitize clamp split join
one_line_of text width = clamp (join (codes " ") (split (sanitize text))) width

abbrev unseparated : ℕ → ℕ
unseparated c = if c == 0x2028 || c == 0x2029 then 32 else c

unfoldable pub prompt_scalar : Text → Text
unfolding sanitize
prompt_scalar value = map unseparated (sanitize value)

unfoldable pub prompt_header_scalar : Text → Text
unfolding prompt_scalar split join replace_from
prompt_header_scalar value =
    replace_from (codes "###") (codes "#" ++ (joiner ∷ codes "##")) 0
      (join (codes " ") (split (prompt_scalar value)))

unfoldable pub is_one_line : Text → Bool
is_one_line path = not (any (λ c. c == 10 || c == 13) path)
