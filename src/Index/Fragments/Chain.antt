-- ===== src/Index/Fragments/Chain.antt =====
-- Lines in a chain, and spans that cover a stretch.
use stigmergy.Prelude.{
  ℕ, ◌+◌, ◌-◌, ◌≤◌, ◌<◌, ◌≡◌, refl, sym, ◌∙◌, subst, List, [], ◌∷◌, ◌++◌, arith, length, drop, Text,
}
use stigmergy.Index.Fragments.Lines.{Line, max_fragment_bytes}
use stigmergy.Index.Fragments.Windows.{Span, sum_words, sum_bytes, last_end}
use stigmergy.Index.Fragments.Tiling.{Tiled, length-drop}

-- The lines lead from `o` to `e`: each starts where the one before it ends, is not empty, and fits
-- the bytes of a fragment.
abbrev pub Chained : ℕ → List Line → ℕ → Type 0
Chained o [] e = o ≡ e
Chained o (l ∷ ls) e =
    (l.start ≡ o) × (o < l.end) × (l.size ≤ max_fragment_bytes) × Chained l.end ls e

-- The spans cover what lies between `a` and `b`: each starts at or before the end of the one before it
-- and ends after that.
abbrev pub Covers : ℕ → List Span → ℕ → Type 0
Covers a [] b = a ≡ b
Covers a (s ∷ ss) b = (s.start ≤ a) × (a < s.end) × Covers s.end ss b

pub Covers-append :
    (a b c : ℕ) (ss ts : List Span) → Covers a ss b → Covers b ts c → Covers a (ss ++ ts) c
Covers-append a b c [] ts h k = subst (λ z. Covers z ts c) (sym h) k
Covers-append a b c (s ∷ ss) ts h k = (h.0, h.1, Covers-append s.end b c ss ts h.2 k)

pub Tiled-Chained : (o : ℕ) (t : Text) (ls : List Line) → Tiled o t ls → Chained o ls (o + length t)
Tiled-Chained o t [] h = rw h (omega arith)
Tiled-Chained o t (l ∷ ls) (s, p, e, z, m, r) =
    let short : l.end - o ≤ length t = omega (arith, p, e) in
    let onwards : l.end + length (drop (l.end - o) t) ≡ o + length t =
      omega (arith, p, length-drop (l.end - o) t short) in
    (
      s,
      p,
      m,
      subst (λ z. Chained l.end ls z) onwards (Tiled-Chained l.end (drop (l.end - o) t) ls r),
    )

pub Chained-le : (o e : ℕ) (ls : List Line) → Chained o ls e → o ≤ e
Chained-le o e [] h = omega (arith, h)
Chained-le o e (l ∷ ls) h = omega (arith, h.1, Chained-le l.end e ls h.3)

-- a chain of two parts, and where they meet
pub Chained-split :
    (o e : ℕ) (ls ms : List Line)
    → Chained o (ls ++ ms) e
    → (m : ℕ) × Chained o ls m × Chained m ms e
Chained-split o e [] ms h = (o, refl, h)
Chained-split o e (l ∷ ls) ms h =
    let (m, p, q) = Chained-split l.end e ls ms h.3 in (m, (h.0, h.1, h.2, p), q)

pub Chained-end : (o a b : ℕ) (ls : List Line) → Chained o ls a → Chained o ls b → a ≡ b
Chained-end o a b [] h k = sym h ∙ k
Chained-end o a b (l ∷ ls) h k = Chained-end l.end a b ls h.3 k.3

pub last_end-Chained : (o e : ℕ) (ls : List Line) → Chained o ls e → last_end o ls ≡ e
last_end-Chained o e [] h = h
last_end-Chained o e (l ∷ ls) h = last_end-Chained l.end e ls h.3

pub Chained-append :
    (o m e : ℕ) (ls ms : List Line) → Chained o ls m → Chained m ms e → Chained o (ls ++ ms) e
Chained-append o m e [] ms h k = subst (λ z. Chained z ms e) (sym h) k
Chained-append o m e (l ∷ ls) ms h k = (h.0, h.1, h.2, Chained-append l.end m e ls ms h.3 k)

pub sum_words-append : (ls ms : List Line) → sum_words (ls ++ ms) ≡ sum_words ls + sum_words ms
sum_words-append [] ms = omega arith
sum_words-append (l ∷ ls) ms = omega (arith, sum_words-append ls ms)

pub sum_bytes-append : (ls ms : List Line) → sum_bytes (ls ++ ms) ≡ sum_bytes ls + sum_bytes ms
sum_bytes-append [] ms = omega arith
sum_bytes-append (l ∷ ls) ms = omega (arith, sum_bytes-append ls ms)
