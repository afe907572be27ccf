-- ===== src/Index/Fragments/Tiling.antt =====
-- The lines of a body, cut where they are too long, side by side.
use stigmergy.Prelude.{
  ℕ, zero, suc, ◌+◌, ◌-◌, ◌≤◌, ◌<◌, ◌≡◌, refl, sym, ap, ◌∙◌, subst, false, ◌&&◌, not, inl, inr,
  List, [], ◌∷◌, ◌++◌, arith, leb, leb→le, Bool-cases, length, length-append, take, drop, Text,
  is_empty, ◌==◌, &&-elim, All,
}
use stigmergy.Index.Fragments.Lines.{
  Line, byte_size, is_break, attach, starts_with, split_lines, count_words, piece, pieces,
  one_line_of, lines_from, lines_of, max_fragment_bytes, window_words,
}
use stigmergy.Index.Fragments.Prefix.{IsPrefix, drop-prefix, piece-prefix}

take-prefix : (a r : Text) → take (length a) (a ++ r) ≡ a
take-prefix [] r = refl
take-prefix (c ∷ a) r = ap (◌∷◌ c) (take-prefix a r)

-- The lines tile the text from offset `o` on: each starts where the one before it ends, is not empty,
-- and has the bytes of its slice, within the limit of a fragment.
abbrev pub Tiled : ℕ → Text → List Line → Type 0
Tiled o t [] = t ≡ []
Tiled o t (l ∷ ls) =
    (l.start ≡ o)
    × (o < l.end)
    × (l.end ≤ o + length t)
    × (l.size ≡ byte_size (take (l.end - o) t))
    × (l.size ≤ max_fragment_bytes)
    × Tiled l.end (drop (l.end - o) t) ls

take-append_left : (n : ℕ) (a b : Text) → n ≤ length a → take n (a ++ b) ≡ take n a
take-append_left zero a b h = refl
take-append_left (suc n) [] b h = absurd (omega (arith, h))
take-append_left (suc n) (c ∷ a) b h = ap (◌∷◌ c) (take-append_left n a b (omega (arith, h)))

pub drop-append_left : (n : ℕ) (a b : Text) → n ≤ length a → drop n (a ++ b) ≡ drop n a ++ b
drop-append_left zero a b h = refl
drop-append_left (suc n) [] b h = absurd (omega (arith, h))
drop-append_left (suc n) (c ∷ a) b h = drop-append_left n a b (omega (arith, h))

pub length-drop : (n : ℕ) (a : Text) → n ≤ length a → length (drop n a) + n ≡ length a
length-drop zero a h = omega arith
length-drop (suc n) [] h = absurd (omega (arith, h))
length-drop (suc n) (c ∷ a) h = omega (arith, length-drop n a (omega (arith, h)))

Tiled-append :
    (o : ℕ) (a b : Text) (ls ms : List Line)
    → Tiled o a ls
    → Tiled (o + length a) b ms
    → Tiled o (a ++ b) (ls ++ ms)
Tiled-append o a b [] ms h k =
    let here : o + length a ≡ o = rw h (omega arith) in rw h (subst (λ z. Tiled z b ms) here k)
Tiled-append o a b (l ∷ ls) ms (s, p, e, z, m, r) k =
    let n = l.end - o in
    let short : n ≤ length a = omega (arith, p, e) in
    let onwards : o + length a ≡ l.end + length (drop n a) =
      omega (arith, length-drop n a short, p) in
    (
      s,
      p,
      omega (arith, e, length-append a b),
      z ∙ ap byte_size (sym (take-append_left n a b short)),
      m,
      subst (λ t. Tiled l.end t (ls ++ ms)) (sym (drop-append_left n a b short))
          (Tiled-append l.end (drop n a) b ls ms r (subst (λ x. Tiled x b ms) onwards k)),
    )

nonempty : (t : Text) → is_empty t ≡ false → 1 ≤ length t
nonempty [] h = absurd (cc h)
nonempty (c ∷ cs) h = omega arith

length-prefix : (a t : Text) (p : IsPrefix a t) → length t ≡ length a + length p.rest
length-prefix a t p = ap length p.whole ∙ length-append a p.rest

add_sub : (a b : ℕ) → a + b - a ≡ b
add_sub a b = omega arith

pieces-Tiled :
    (fuel offset : ℕ) (raw : Text) → length raw ≤ fuel → Tiled offset raw (pieces fuel offset raw)
unfolding pieces
pieces-Tiled zero offset [] h = refl
pieces-Tiled zero offset (c ∷ cs) h = absurd (omega (arith, h))
pieces-Tiled (suc fuel) offset [] h = refl
pieces-Tiled (suc fuel) offset (c ∷ cs) h =
    let raw = c ∷ cs in
    let text = (piece raw).text in
    let (p, some, small) = piece-prefix c cs in
    let n = length text in
    let part : length raw ≡ n + length p.rest = length-prefix text raw p in
    let cut : offset + n - offset ≡ n = add_sub offset n in
    let left : drop n raw ≡ p.rest = ap (drop n) p.whole ∙ drop-prefix text p.rest in
    let taken : take n raw ≡ text = ap (take n) p.whole ∙ take-prefix text p.rest in
    (
      refl,
      omega (arith, nonempty text some),
      omega (arith, part),
      ap byte_size (sym (ap (λ k. take k raw) cut ∙ taken)),
      small,
      subst (λ k. Tiled (offset + n) (drop k raw) (pieces fuel (offset + n) (drop n raw))) (sym cut)
          (pieces-Tiled fuel (offset + n) (drop n raw)
            (subst (λ t. length t ≤ fuel) (sym left) (omega (arith, part, h, nonempty text some)))),
    )

abbrev pub flat : List Text → Text
flat [] = []
flat (t ∷ ts) = t ++ flat ts

flat-attach : (c : ℕ) (ts : List Text) → flat (attach c ts) ≡ c ∷ flat ts
flat-attach c [] = refl
flat-attach c (t ∷ ts) = refl

flat-split_lines : (t : Text) → flat (split_lines t) ≡ t
unfolding split_lines
flat-split_lines [] = refl
flat-split_lines (c ∷ cs) = elim (Bool-cases (is_break c && not (c == 13 && starts_with 10 cs))) [
  | inl e ↦ rw e (ap (◌∷◌ c) (flat-split_lines cs))
  | inr e ↦ rw e (flat-attach c (split_lines cs) ∙ ap (◌∷◌ c) (flat-split_lines cs))
]

abbrev IsFilled : Text → Type 0
IsFilled t = is_empty t ≡ false

attach-IsFilled : (c : ℕ) (ts : List Text) → All IsFilled ts → All IsFilled (attach c ts)
attach-IsFilled c [] h = (refl, tt)
attach-IsFilled c (t ∷ ts) h = (refl, h.1)

split_lines-IsFilled : (t : Text) → All IsFilled (split_lines t)
unfolding split_lines
split_lines-IsFilled [] = tt
split_lines-IsFilled (c ∷ cs) =
    elim (Bool-cases (is_break c && not (c == 13 && starts_with 10 cs))) [
      | inl e ↦ rw e (refl, split_lines-IsFilled cs)
      | inr e ↦ rw e (attach-IsFilled c (split_lines cs) (split_lines-IsFilled cs))
    ]

take_all_text : (t : Text) → take (length t) t ≡ t
take_all_text [] = refl
take_all_text (c ∷ t) = ap (◌∷◌ c) (take_all_text t)

drop_all_text : (t : Text) → drop (length t) t ≡ []
drop_all_text [] = refl
drop_all_text (c ∷ t) = drop_all_text t

one_line_of-Tiled :
    (offset : ℕ) (raw : Text)
    → is_empty raw ≡ false
    → byte_size raw ≤ max_fragment_bytes
    → Tiled offset raw (one_line_of offset raw ∷ [])
one_line_of-Tiled offset raw some small =
    let cut : offset + length raw - offset ≡ length raw = add_sub offset (length raw) in
    (
      refl,
      omega (arith, nonempty raw some),
      omega arith,
      ap byte_size (sym (ap (λ k. take k raw) cut ∙ take_all_text raw)),
      small,
      ap (λ k. drop k raw) cut ∙ drop_all_text raw,
    )

lines_from-Tiled :
    (offset : ℕ) (raws : List Text)
    → All IsFilled raws
    → Tiled offset (flat raws) (lines_from offset raws)
lines_from-Tiled offset [] h = refl
lines_from-Tiled offset (raw ∷ rest) h =
    Tiled-append offset raw (flat rest) _ (lines_from (offset + length raw) rest)
      (elim (Bool-cases
        (leb (count_words raw) window_words && leb (byte_size raw) max_fragment_bytes)) [
          | inl e ↦ rw e (
              one_line_of-Tiled offset raw h.0 (
                leb→le (byte_size raw) max_fragment_bytes
                  (&&-elim (leb (count_words raw) window_words) _ e).1))
          | inr e ↦ rw e (pieces-Tiled (length raw) offset raw (omega arith))
        ])
      (lines_from-Tiled (offset + length raw) rest h.1)

-- The lines of a body tile it.
pub lines_of-Tiled : (body : Text) → Tiled 0 body (lines_of body)
unfolding lines_of
lines_of-Tiled body =
    subst (λ t. Tiled 0 t (lines_from 0 (split_lines body))) (flat-split_lines body)
      (lines_from-Tiled 0 (split_lines body) (split_lines-IsFilled body))
