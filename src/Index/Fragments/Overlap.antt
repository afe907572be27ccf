-- ===== src/Index/Fragments/Overlap.antt =====
-- What consecutive windows share.
use mathlib.Core.List.{append_assoc, append-nil}
use stigmergy.Prelude.{
  ℕ, ◌+◌, ◌*◌, ◌/◌, ◌≤◌, ◌≡◌, refl, sym, ap, ◌∙◌, ◌&&◌, ◌||◌, inl, inr, ◌⊎◌, List, [], ◌∷◌, ◌++◌,
  arith, ltb, leb, min, Bool-cases,
}
use stigmergy.Index.Fragments.Lines.{Line, max_fragment_bytes, window_words, overlap_cap_words}
use stigmergy.Index.Fragments.Windows.{
  sum_words, sum_bytes, reverse_onto, carry, overlap, overlap_words,
}

reverse_onto-append : (ls kept : List Line) → reverse_onto ls kept ≡ reverse_onto ls [] ++ kept
reverse_onto-append [] kept = refl
reverse_onto-append (l ∷ ls) kept =
    reverse_onto-append ls (l ∷ kept)
    ∙ sym (append_assoc (reverse_onto ls []) (l ∷ []) kept)
    ∙ ap (λ z. z ++ kept) (sym (reverse_onto-append ls (l ∷ [])))

reverse_onto_twice :
    (ls acc kept : List Line)
    → reverse_onto (reverse_onto ls acc) kept ≡ reverse_onto acc (ls ++ kept)
reverse_onto_twice [] acc kept = refl
reverse_onto_twice (l ∷ ls) acc kept = reverse_onto_twice ls (l ∷ acc) kept

-- The lines that are carried over end the window, and keep to both rooms.
carry-end :
    (wr br words bytes : ℕ) (kept ls : List Line)
    → words ≡ sum_words kept
    → bytes ≡ sum_bytes kept
    → words ≤ wr
    → bytes ≤ br
    → ((front : List Line) × (reverse_onto ls kept ≡ front ++ carry wr br words bytes kept ls))
      × (sum_words (carry wr br words bytes kept ls) ≤ wr)
      × (sum_bytes (carry wr br words bytes kept ls) ≤ br)
unfolding carry
carry-end wr br words bytes kept [] w b p q = (([], refl), omega (arith, w, p), omega (arith, b, q))
carry-end wr br words bytes kept (l ∷ ls) w b p q =
    elim (Bool-cases
      (ltb words overlap_words && (leb (words + l.words) wr && leb (bytes + l.size) br))) [
        | inl e ↦ rw e (
            carry-end wr br (words + l.words) (bytes + l.size) (l ∷ kept) ls (omega (arith, w))
              (omega (arith, b)) (ground (arith, e)) (ground (arith, e)))
        | inr e ↦ rw e (
          (reverse_onto ls (l ∷ []), reverse_onto-append (l ∷ ls) kept),
          omega (arith, w, p),
          omega (arith, b, q),
        )
      ]

-- The lines that the next window starts with end the window and leave out its first line; they have
-- at most a quarter of its words and of its bytes, and at most a hundred words; and where there are
-- any, the first line after the window still fits beside them.
pub overlap_quarter :
    (l : Line) (rest : List Line) (next : Line)
    → let kept = overlap l rest next in
      ((front : List Line) × (rest ≡ front ++ kept))
      × (4 * sum_words kept ≤ sum_words (l ∷ rest))
      × (4 * sum_bytes kept ≤ sum_bytes (l ∷ rest))
      × (sum_words kept ≤ overlap_cap_words)
      × ((kept ≡ [])
          ⊎ ((sum_words kept + next.words ≤ window_words)
              × (sum_bytes kept + next.size ≤ max_fragment_bytes)))
unfolding overlap
overlap_quarter l rest next =
    let window = l ∷ rest in
    let wr = min overlap_cap_words (sum_words window / 4) in
    let br = sum_bytes window / 4 in
    let carried = carry wr br 0 0 [] (reverse_onto rest []) in
    let ((front, ends), few, small) =
      carry-end wr br 0 0 [] (reverse_onto rest []) refl refl (omega arith) (omega arith) in
    let whole : rest ≡ front ++ carried =
      sym (append-nil rest) ∙ sym (reverse_onto_twice rest [] []) ∙ ends in
    elim (Bool-cases (
      ltb window_words (sum_words carried + next.words)
      || ltb max_fragment_bytes (sum_bytes carried + next.size))) [
        | inl e ↦
            rw e ((rest, sym (append-nil rest)), omega arith, omega arith, omega arith, inl refl)
        | inr e ↦ rw e (
          (front, whole),
          omega (arith, few),
          omega (arith, small),
          omega (arith, few),
          inr (ground (arith, e), ground (arith, e)),
        )
      ]
