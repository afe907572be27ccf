-- ===== src/Prelude/Texts.antt =====
-- Text as a list of code points, with Python's `str.split`, `str.join` and slices on it.
use Prim.Native.Char.{code}
use Prim.Native.String.{String}
use Prim.Native.Nat.{ℕ}
use mathlib.Core.Path.{◌≡◌, refl, ap₂, subst}
use mathlib.Core.Logic.{◌↔◌}
use mathlib.Core.Bool.{Bool, true, false, ◌&&◌, ◌||◌}
use mathlib.Core.Option.{Option, none, some}
use mathlib.Core.List.{List, [], ◌∷◌, ◌++◌}
use native.Mathlib.Omega.{arith}
use stigmergy.Prelude.Tests.{leb, ◌==◌, ==_iff, ==_refl, &&-elim, &&-intro, if◌then◌else◌}
use stigmergy.Prelude.Lists.{In, any}
use stigmergy.Prelude.Rows.{any-In, In-any}

abbrev pub Text : Type 0
Text = List ℕ

abbrev pub codes : String → Text
codes String.[] = []
codes (String.◌∷◌ c s) = code c ∷ codes s

-- str.isspace of one character
unfoldable pub is_space : ℕ → Bool
is_space c =
    (leb 9 c && leb c 13)
    || (leb 28 c && leb c 32)
    || c == 0x85
    || c == 0xA0
    || c == 0x1680
    || (leb 0x2000 c && leb c 0x200A)
    || c == 0x2028
    || c == 0x2029
    || c == 0x202F
    || c == 0x205F
    || c == 0x3000

unfoldable pub text_eq : Text → Text → Bool
text_eq [] [] = true
text_eq (a ∷ s) (b ∷ t) = (a == b) && text_eq s t
text_eq _ _ = false

abbrev pub is_empty {ℓ} : {A : Type ℓ} → List A → Bool
is_empty [] = true
is_empty (x ∷ xs) = false

abbrev flush : Text → List Text → List Text
flush [] rest = rest
flush (c ∷ cs) rest = (c ∷ cs) ∷ rest

unfoldable pub split_from : Text → Text → List Text
unfolding is_space
split_from word [] = flush word []
split_from word (c ∷ cs) =
    let ended = flush word (split_from [] cs) in
    let longer = split_from (word ++ c ∷ []) cs in if is_space c then ended else longer

-- s.split()
unfoldable pub split : Text → List Text
unfolding split_from
split s = split_from [] s

-- sep.join(words)
unfoldable pub join : Text → List Text → Text
join sep [] = []
join sep (w ∷ []) = w
join sep (w ∷ v ∷ ws) = w ++ (sep ++ join sep (v ∷ ws))

-- " ".join(s.split())
unfoldable pub one_line : Text → Text
unfolding split join
one_line s = join (32 ∷ []) (split s)

-- s.lstrip(), s.rstrip(), s.strip()
unfoldable pub lstrip : Text → Text
unfolding is_space
lstrip [] = []
lstrip (c ∷ cs) = let rest = lstrip cs in if is_space c then rest else c ∷ cs

unfoldable pub rstrip : Text → Text
unfolding is_space
rstrip [] = []
rstrip (c ∷ cs) = let rest = rstrip cs in if is_empty rest && is_space c then [] else c ∷ rest

unfoldable pub strip : Text → Text
unfolding lstrip rstrip
strip s = rstrip (lstrip s)

abbrev cut : Bool → ℕ → List Text → List Text
cut true d parts = [] ∷ parts
cut false d [] = (d ∷ []) ∷ []
cut false d (w ∷ ws) = (d ∷ w) ∷ ws

-- s.split(sep) at a single character
unfoldable pub split_at : ℕ → Text → List Text
split_at sep [] = [] ∷ []
split_at sep (c ∷ cs) = cut (c == sep) c (split_at sep cs)

-- s.startswith(prefix), and what follows it
unfoldable pub after_prefix : Text → Text → Option Text
after_prefix [] s = some s
after_prefix (p ∷ ps) [] = none
after_prefix (p ∷ ps) (c ∷ cs) = let rest = after_prefix ps cs in if p == c then rest else none

abbrev pub elem : Text → List Text → Bool
elem a xs = any (λ x. text_eq x a) xs

pub text_eq_iff : (s t : Text) → (text_eq s t ≡ true) ↔ (s ≡ t)
unfolding text_eq
text_eq_iff s t = (sound s t, λ e. subst (λ z. text_eq s z ≡ true) e (itself s))
  where
    itself : (w : Text) → text_eq w w ≡ true
    itself [] = refl
    itself (c ∷ cs) = &&-intro (c == c) _ (==_refl c) (itself cs)

    sound : (u v : Text) → text_eq u v ≡ true → u ≡ v
    sound [] [] h = refl
    sound [] (b ∷ v) h = absurd (ground arith)
    sound (a ∷ u) [] h = absurd (ground arith)
    sound (a ∷ u) (b ∷ v) h =
        let (p, q) = &&-elim (a == b) (text_eq u v) h in ap₂ ◌∷◌ ((==_iff a b).0 p) (sound u v q)

pub elem-In : (a : Text) (xs : List Text) → elem a xs ≡ true → In a xs
elem-In a xs h =
    let (x, m, e) = any-In (λ x. text_eq x a) xs h in subst (λ z. In z xs) ((text_eq_iff x a).0 e) m

pub In-elem : (a : Text) (xs : List Text) → In a xs → elem a xs ≡ true
In-elem a xs m = In-any (λ x. text_eq x a) a xs m ((text_eq_iff a a).1 refl)
