-- ===== src/Index/Fragments/Reassemble.antt =====
-- The fragments of a body against the body.
use mathlib.Core.List.{append-nil}
use stigmergy.Prelude.{
  ℕ, zero, suc, ◌+◌, ◌-◌, ◌≤◌, ◌<◌, ◌≡◌, refl, sym, ap, ◌∙◌, subst, Bool, true, false, ◌&&◌, inl,
  inr, List, [], ◌∷◌, ◌++◌, arith, leb, Bool-cases, length, take, drop, take-append-drop, Text,
  is_empty,
}
use stigmergy.Index.Fragments.Lines.{Line, byte_size, lines_of, max_fragment_bytes}
use stigmergy.Index.Fragments.Sections.{Section, slice, sections, merged}
use stigmergy.Index.Fragments.Windows.{Span, sum_words, windows}
use stigmergy.Index.Fragments.Cut.{
  Fragment, Placed, placed, place_all, number_from, fragment, short_page_words,
}
use stigmergy.Index.Fragments.Tiling.{Tiled, lines_of-Tiled, drop-append_left}
use stigmergy.Index.Fragments.Chain.{Chained, Covers, Covers-append, Chained-split, Tiled-Chained}
use stigmergy.Index.Fragments.Advance.{windows-Covers}
use stigmergy.Index.Fragments.Partition.{Parts, sections-Parts, merged-Parts}

abbrev pub spans_of : List Placed → List Span
spans_of [] = []
spans_of (p ∷ ps) = p.span ∷ spans_of ps

spans_of-placed : (trail : Text) (ss : List Span) → spans_of (placed trail ss) ≡ ss
spans_of-placed trail [] = refl
spans_of-placed trail (s ∷ ss) = ap (◌∷◌ s) (spans_of-placed trail ss)

spans_of-append : (ps qs : List Placed) → spans_of (ps ++ qs) ≡ spans_of ps ++ spans_of qs
spans_of-append [] qs = refl
spans_of-append (p ∷ ps) qs = ap (◌∷◌ p.span) (spans_of-append ps qs)

pub Parts-le : (a b : ℕ) (ss : List Section) → Parts a ss b → a ≤ b
Parts-le a b [] h = omega (arith, h)
Parts-le a b (s ∷ ss) h = omega (arith, h.1, Parts-le s.last b ss h.2)

drop_nil {ℓ} : {A : Type ℓ} (k : ℕ) → drop {A = A} k [] ≡ []
drop_nil zero = refl
drop_nil (suc k) = refl

pub drop_more {ℓ} : {A : Type ℓ} (m n : ℕ) (xs : List A) → drop n (drop m xs) ≡ drop (m + n) xs
drop_more zero n xs = let e : n ≡ zero + n = omega arith in ap (λ k. drop k xs) e
drop_more (suc m) n [] = drop_nil n ∙ sym (drop_nil (suc m + n))
drop_more (suc m) n (x ∷ xs) =
    let e : suc m + n ≡ suc (m + n) = omega arith in
    drop_more m n xs ∙ ap (λ k. drop k (x ∷ xs)) (sym e)

take_some :
    (k : ℕ) (ls : List Line)
    → 1 ≤ k
    → k ≤ length ls
    → (l : Line) × (rest : List Line) × (take k ls ≡ l ∷ rest)
take_some zero ls p q = absurd (omega (arith, p))
take_some (suc k) [] p q = absurd (omega (arith, q))
take_some (suc k) (l ∷ ls) p q = (l, take k ls, refl)

length-drop_lines : (n : ℕ) (ls : List Line) → length (drop n ls) ≡ length ls - n
length-drop_lines zero ls = omega arith
length-drop_lines (suc n) [] = omega arith
length-drop_lines (suc n) (l ∷ ls) = omega (arith, length-drop_lines n ls)

place_all-Covers :
    (lines : List Line) (a o e : ℕ) (ss : List Section)
    → Parts a ss (length lines)
    → Chained o (drop a lines) e
    → Covers o (spans_of (place_all lines ss)) e
place_all-Covers lines a o e [] h c =
    subst (λ ls. Chained o ls e) (ap (λ n. drop n lines) h ∙ drop_all lines) c
  where
    drop_all : (ls : List Line) → drop (length ls) ls ≡ []
    drop_all [] = refl
    drop_all (l ∷ ls) = drop_all ls
place_all-Covers lines a o e (s ∷ ss) h c =
    let size = s.last - s.first in
    let left = drop s.first lines in
    let here : Chained o left e = subst (λ z. Chained o (drop z lines) e) (sym h.0) c in
    let (m, ours, theirs) =
      Chained-split o e (take size left) (drop size left)
        (subst (λ ls. Chained o ls e) (sym (take-append-drop size left)) here) in
    let upto : s.last ≤ length lines = Parts-le s.last (length lines) ss h.2 in
    let (l, rest, e1) =
      take_some size left (omega (arith, h.0, h.1))
        (omega (arith, length-drop_lines s.first lines, h.0, h.1, upto)) in
    let first : Covers o (windows (take size left)) m =
      subst (λ ls. Covers o (windows ls) m) (sym e1)
        (windows-Covers o m l rest (subst (λ ls. Chained o ls m) e1 ours)) in
    let last_is : s.first + size ≡ s.last = omega (arith, h.0, h.1) in
    let onward : Chained m (drop s.last lines) e =
      subst (λ ls. Chained m ls e) (drop_more s.first size lines ∙ ap (λ k. drop k lines) last_is)
        theirs in
    subst (λ z. Covers o z e)
      (sym (
        spans_of-append (placed s.trail (windows (take size left))) (place_all lines ss)
        ∙ ap (λ z. z ++ spans_of (place_all lines ss))
            (spans_of-placed s.trail (windows (take size left)))))
      (Covers-append o m e (windows (take size left)) (spans_of (place_all lines ss)) first
        (place_all-Covers lines s.last m e ss h.2 onward))

-- What the fragments say of the body beyond position `a`: of each, what comes after the one before it.
unfoldable pub rejoined : ℕ → List Fragment → Text
rejoined a [] = []
rejoined a (f ∷ fs) = drop (a - f.start) f.text ++ rejoined f.end fs

Covers-le : (a b : ℕ) (ss : List Span) → Covers a ss b → a ≤ b
Covers-le a b [] h = omega (arith, h)
Covers-le a b (s ∷ ss) h = omega (arith, h.1, Covers-le s.end b ss h.2)

length-take_of : (n : ℕ) (t : Text) → n ≤ length t → length (take n t) ≡ n
length-take_of zero t h = refl
length-take_of (suc n) [] h = absurd (omega (arith, h))
length-take_of (suc n) (c ∷ t) h = ap suc (length-take_of n t (omega (arith, h)))

length-drop_text : (n : ℕ) (t : Text) → length (drop n t) ≡ length t - n
length-drop_text zero t = omega arith
length-drop_text (suc n) [] = omega arith
length-drop_text (suc n) (c ∷ t) = omega (arith, length-drop_text n t)

-- the end of a slice and what follows the slice
slice-rest :
    (s a e : ℕ) (t : Text)
    → s ≤ a
    → a < e
    → e ≤ length t
    → drop (a - s) (slice s e t) ++ drop e t ≡ drop a t
slice-rest s a e t p q r =
    let left = drop s t in
    let n = e - s in
    let long : n ≤ length left = omega (arith, length-drop_text s t, p, q, r) in
    let far : s + n ≡ e = omega (arith, p, q) in
    let near : s + (a - s) ≡ a = omega (arith, p) in
    ap (◌++◌ (drop (a - s) (take n left))) (ap (λ k. drop k t) (sym far) ∙ sym (drop_more s n t))
    ∙ sym (
        drop-append_left (a - s) (take n left) (drop n left)
          (omega (arith, length-take_of n left long, p, q)))
    ∙ ap (drop (a - s)) (take-append-drop n left)
    ∙ drop_more s (a - s) t
    ∙ ap (λ k. drop k t) near

drop_all_text : (t : Text) → drop (length t) t ≡ []
drop_all_text [] = refl
drop_all_text (c ∷ t) = drop_all_text t

rejoined-number_from :
    (i a : ℕ) (body : Text) (ps : List Placed)
    → Covers a (spans_of ps) (length body)
    → rejoined a (number_from i body ps) ≡ drop a body
unfolding rejoined
rejoined-number_from i a body [] h = sym (ap (λ n. drop n body) h ∙ drop_all_text body)
rejoined-number_from i a body (p ∷ ps) h =
    ap (◌++◌ (drop (a - p.span.start) (slice p.span.start p.span.end body)))
      (rejoined-number_from (suc i) p.span.end body ps h.2)
    ∙ slice-rest p.span.start a p.span.end body h.0 h.1
        (Covers-le p.span.end (length body) (spans_of ps) h.2)

pub lines_some :
    (body : Text) → is_empty body ≡ false → (l : Line) × (ls : List Line) × (lines_of body ≡ l ∷ ls)
lines_some body h = go (lines_of body) refl
  where
    go :
        (ls : List Line)
        → lines_of body ≡ ls
        → (l : Line) × (rest : List Line) × (lines_of body ≡ l ∷ rest)
    go (l ∷ ls) e = (l, ls, e)
    go [] e =
        let bare : body ≡ [] = subst (Tiled 0 body) e (lines_of-Tiled body) in
        absurd (cc (h, ap is_empty bare))

-- The windows of a body's sections cover it.
pub placed-Covers :
    (body : Text) (source : Bool)
    → is_empty body ≡ false
    → Covers 0
        (spans_of (
          place_all
            (lines_of body)
            (merged (sections body (lines_of body) source) (lines_of body))))
        (length body)
placed-Covers body source some =
    let (l, ls, e) = lines_some body some in
    let parts : Parts 0 (sections body (lines_of body) source) (length (lines_of body)) =
      subst (λ z. Parts 0 (sections body z source) (length z)) (sym e)
        (sections-Parts body l ls source) in
    place_all-Covers (lines_of body) 0 0 (length body) _
      (merged-Parts (lines_of body) 0 (length (lines_of body)) _ parts)
      (subst (Chained 0 (lines_of body)) (omega arith)
        (Tiled-Chained 0 body (lines_of body) (lines_of-Tiled body)))

-- The fragments of a page reassemble its body: joined in order, each without what the one before it
-- already holds, they are the body itself, for every body, wiki page or source.
pub fragment_reassembles : (body : Text) (source : Bool) → rejoined 0 (fragment body source) ≡ body
unfolding fragment rejoined
fragment_reassembles body source = elim (Bool-cases (is_empty body)) [
  | inl e ↦ rw (e, fragment) (sym (nothing body e))
  | inr e ↦
      elim (Bool-cases (
        leb (sum_words (lines_of body)) short_page_words
        && leb (byte_size body) max_fragment_bytes)) [
          | inl b ↦ rw (e, b, fragment) (append-nil body)
          | inr b ↦
              rw (e, b, fragment) (rejoined-number_from 0 0 body _ (placed-Covers body source e))
        ]
]
  where
    nothing : (t : Text) → is_empty t ≡ true → t ≡ []
    nothing [] h = refl
    nothing (c ∷ t) h = absurd (cc h)
