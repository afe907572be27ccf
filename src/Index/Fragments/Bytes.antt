-- ===== src/Index/Fragments/Bytes.antt =====
-- How many bytes the fragments of a body have.
use stigmergy.Prelude.{
  ℕ, zero, suc, ◌+◌, ◌-◌, ◌≤◌, ◌≡◌, refl, sym, ap, ◌∙◌, subst, Bool, ◌&&◌, inl, inr, List, [], ◌∷◌,
  ◌++◌, arith, leb, leb→le, Bool-cases, List-cases, Option-cases, &&-elim, length, take, drop,
  take-append-drop, Text, is_empty, All, All-split, All-append,
}
use stigmergy.Index.Fragments.Lines.{Line, byte_size, lines_of, max_fragment_bytes, window_words}
use stigmergy.Index.Fragments.Sections.{Section, slice, sections}
use stigmergy.Index.Fragments.Windows.{
  Span, sum_words, sum_bytes, grow, last_blank, at_paragraph, paragraph_words, window_of, overlap,
  last_end, span_of, tail_of, slide, windows, section_max_words,
}
use stigmergy.Index.Fragments.Cut.{
  Fragment, Placed, placed, place_all, number_from, fragment, short_page_words,
}
use stigmergy.Index.Fragments.Prefix.{byte_size-append}
use stigmergy.Index.Fragments.Tiling.{Tiled, lines_of-Tiled}
use stigmergy.Index.Fragments.Chain.{
  Chained, Chained-le, Chained-split, Chained-append, Tiled-Chained, last_end-Chained,
  sum_bytes-append,
}
use stigmergy.Index.Fragments.Overlap.{overlap_quarter}
use stigmergy.Index.Fragments.Advance.{window_of-Extends, headed, last_blank-splits}
use stigmergy.Index.Fragments.Partition.{Parts, sections-Parts, merged-Parts}
use stigmergy.Index.Fragments.Reassemble.{drop_more, lines_some}

-- each line has the bytes of its slice of the body
abbrev Measured : Text → List Line → Type 0
Measured body ls = All (λ (l : Line). l.size ≡ byte_size (slice l.start l.end body)) ls

Tiled-Measured :
    (body : Text) (o : ℕ) (ls : List Line) → Tiled o (drop o body) ls → Measured body ls
Tiled-Measured body o [] h = tt
Tiled-Measured body o (l ∷ ls) (s, p, e, z, m, r) =
    let far : o + (l.end - o) ≡ l.end = omega (arith, p) in
    (
      z ∙ ap (λ k. byte_size (slice k l.end body)) (sym s),
      Tiled-Measured body l.end ls (
          subst (λ t. Tiled l.end t ls) (drop_more o (l.end - o) body ∙ ap (λ k. drop k body) far)
            r),
    )

take_more : (a b : ℕ) (t : Text) → take (a + b) t ≡ take a t ++ take b (drop a t)
take_more zero b t = let e : zero + b ≡ b = omega arith in ap (λ k. take k t) e
take_more (suc a) b [] =
    let e : suc a + b ≡ suc (a + b) = omega arith in ap (λ k. take k []) e ∙ none_left b
  where
    none_left : (k : ℕ) → ◌≡◌ {A = Text} [] (take k [])
    none_left zero = refl
    none_left (suc k) = refl
take_more (suc a) b (c ∷ t) =
    let e : suc a + b ≡ suc (a + b) = omega arith in
    ap (λ k. take k (c ∷ t)) e ∙ ap (◌∷◌ c) (take_more a b t)

slice-join : (s m e : ℕ) (t : Text) → s ≤ m → m ≤ e → slice s e t ≡ slice s m t ++ slice m e t
slice-join s m e t p q =
    let parts : e - s ≡ (m - s) + (e - m) = omega (arith, p, q) in
    let far : s + (m - s) ≡ m = omega (arith, p) in
    ap (λ k. take k (drop s t)) parts
    ∙ take_more (m - s) (e - m) (drop s t)
    ∙ ap (λ z. take (m - s) (drop s t) ++ take (e - m) z)
        (drop_more s (m - s) t ∙ ap (λ k. drop k t) far)

slice_none : (o m : ℕ) (t : Text) → o ≡ m → byte_size (slice o m t) ≡ 0
unfolding byte_size
slice_none o m t h =
    let e : m - o ≡ 0 = omega (arith, h) in ap (λ k. byte_size (take k (drop o t))) e

-- The slice that lines in a chain span has their bytes.
chain-bytes :
    (body : Text) (o m : ℕ) (ls : List Line)
    → Chained o ls m
    → Measured body ls
    → byte_size (slice o m body) ≡ sum_bytes ls
chain-bytes body o m [] h k = slice_none o m body h
chain-bytes body o m (l ∷ ls) h k =
    let here : l.size ≡ byte_size (slice o l.end body) =
      k.0 ∙ ap (λ z. byte_size (slice z l.end body)) h.0 in
    ap byte_size (slice-join o l.end m body (omega (arith, h.1)) (Chained-le l.end m ls h.3))
    ∙ byte_size-append (slice o l.end body) (slice l.end m body)
    ∙ omega (arith, here, chain-bytes body l.end m ls h.3 k.1)

grow-bytes :
    (words bytes : ℕ) (ls : List Line)
    → bytes ≤ max_fragment_bytes
    → bytes + sum_bytes (grow words bytes ls).window ≤ max_fragment_bytes
unfolding grow
grow-bytes words bytes [] h = omega (arith, h)
grow-bytes words bytes (l ∷ ls) h =
    elim (Bool-cases
      (leb (words + l.words) window_words && leb (bytes + l.size) max_fragment_bytes)) [
        | inl e ↦ rw e (
            omega (
              arith,
              grow-bytes (words + l.words) (bytes + l.size) ls (
                  leb→le (bytes + l.size) max_fragment_bytes
                    (&&-elim (leb (words + l.words) window_words) _ e).1),
            ))
        | inr e ↦ rw e (omega (arith, h))
      ]

at_paragraph-bytes :
    (l : Line) (rest after : List Line)
    → sum_bytes (at_paragraph l rest after).window ≤ sum_bytes (l ∷ rest)
unfolding at_paragraph
at_paragraph-bytes l rest after = elim (Option-cases (last_blank rest)) [
  | inl n ↦ rw (n, at_paragraph) (omega arith)
  | inr (p, n) ↦ elim (Bool-cases (leb paragraph_words (sum_words (l ∷ p.before)))) [
    | inr b ↦ rw (n, at_paragraph) (rw b (omega arith))
    | inl b ↦
        rw (n, at_paragraph)
          (rw b (
            omega (
              arith,
              ap sum_bytes (last_blank-splits rest p n),
              sum_bytes-append p.before (p.blank_line ∷ p.behind),
              sum_bytes-append p.before (p.blank_line ∷ []),
            )))
  ]
]

window_of-bytes :
    (l : Line) (ls : List Line)
    → l.size ≤ max_fragment_bytes
    → sum_bytes (window_of l ls).window ≤ max_fragment_bytes
unfolding window_of
window_of-bytes l ls h =
    let grown = grow l.words l.size ls in
    let small = grow-bytes l.words l.size ls h in
    elim (Bool-cases (is_empty grown.after)) [
      | inl n ↦ rw (n, window_of) small
      | inr n ↦
          rw (n, window_of) (omega (arith, small, at_paragraph-bytes l grown.window grown.after))
    ]

abbrev IsSmall : Text → Span → Type 0
IsSmall body s = byte_size (slice s.start s.end body) ≤ max_fragment_bytes

slide-IsSmall :
    (body : Text) (fuel o e : ℕ) (zs : List Line)
    → Chained o zs e
    → Measured body zs
    → All (IsSmall body) (slide fuel zs)
unfolding slide
slide-IsSmall body zero o e zs c k = tt
slide-IsSmall body (suc fuel) o e [] c k = tt
slide-IsSmall body (suc fuel) o e (l ∷ ls) c k =
    let cut = window_of l ls in
    let far = window_of-Extends [] l l ls ls refl (inl refl) in
    let rest = tail_of cut.window in
    let front : cut.window ≡ l ∷ rest =
      headed [] l far.more cut.window cut.after l ls far.past far.whole in
    let whole : l ∷ ls ≡ (l ∷ rest) ++ cut.after = far.whole ∙ ap (λ z. z ++ cut.after) front in
    let (m, ours, theirs) =
      Chained-split o e (l ∷ rest) cut.after (subst (λ z. Chained o z e) whole c) in
    let (sized, sizes) = All-split _ (l ∷ rest) cut.after (subst (Measured body) whole k) in
    let ends : last_end l.end rest ≡ m = last_end-Chained o m (l ∷ rest) ours in
    let bytes : byte_size (slice l.start (last_end l.end rest) body) ≡ sum_bytes (l ∷ rest) =
      ap (λ z. byte_size (slice z (last_end l.end rest) body)) ours.0
      ∙ ap (λ z. byte_size (slice o z body)) ends
      ∙ chain-bytes body o m (l ∷ rest) ours sized in
    let small : IsSmall body (span_of l rest) =
      omega (arith, bytes, window_of-bytes l ls c.2, ap sum_bytes front) in
    elim (List-cases cut.after) [
      | inl n ↦ rw (n, slide) (small, tt)
      | inr (y, ys, n) ↦
          let kept = overlap l rest y in
          let (head, split) = (overlap_quarter l rest y).0 in
          let (o', c3, c4) =
            Chained-split o m (l ∷ head) kept (subst (λ z. Chained o (l ∷ z) m) split ours) in
          let (k1, k2) =
            All-split _ (l ∷ head) kept (subst (λ z. Measured body (l ∷ z)) split sized) in
          rw (n, slide)
            (
              small,
              slide-IsSmall body fuel o' e (kept ++ y ∷ ys)
                  (Chained-append o' m e kept (y ∷ ys) c4 (subst (λ z. Chained m z e) n theirs))
                  (All-append _ kept (y ∷ ys) k2 (subst (Measured body) n sizes)),
            )
    ]

windows-IsSmall :
    (body : Text) (o e : ℕ) (ls : List Line)
    → Chained o ls e
    → Measured body ls
    → All (IsSmall body) (windows ls)
unfolding windows
windows-IsSmall body o e [] c k = tt
windows-IsSmall body o e (l ∷ ls) c k =
    elim (Bool-cases
      (leb (sum_words (l ∷ ls)) section_max_words && leb (sum_bytes (l ∷ ls)) max_fragment_bytes)) [
        | inr b ↦ rw b (slide-IsSmall body (length (l ∷ ls)) o e (l ∷ ls) c k)
        | inl b ↦
            let ends : last_end l.end ls ≡ e = last_end-Chained o e (l ∷ ls) c in
            let bytes : byte_size (slice l.start (last_end l.end ls) body) ≡ sum_bytes (l ∷ ls) =
              ap (λ z. byte_size (slice z (last_end l.end ls) body)) c.0
              ∙ ap (λ z. byte_size (slice o z body)) ends
              ∙ chain-bytes body o e (l ∷ ls) c k in
            let few : sum_bytes (l ∷ ls) ≤ max_fragment_bytes =
              leb→le (sum_bytes (l ∷ ls)) max_fragment_bytes
                (&&-elim (leb (sum_words (l ∷ ls)) section_max_words) _ b).1 in
            rw b (omega (arith, bytes, few), tt)
      ]

All-part {κ} :
    (P : Line → Type κ) (n m : ℕ) (ls : List Line) → All P ls → All P (take m (drop n ls))
All-part P n m ls h =
    let (p, q) =
      All-split P (take n ls) (drop n ls) (subst (All P) (sym (take-append-drop n ls)) h) in
    (All-split P (take m (drop n ls)) (drop m (drop n ls))
      (subst (All P) (sym (take-append-drop m (drop n ls))) q)).0

placed-IsSmall :
    (body trail : Text) (ss : List Span)
    → All (IsSmall body) ss
    → All (λ (p : Placed). IsSmall body p.span) (placed trail ss)
placed-IsSmall body trail [] h = tt
placed-IsSmall body trail (s ∷ ss) h = (h.0, placed-IsSmall body trail ss h.1)

place_all-IsSmall :
    (body : Text) (lines : List Line) (a o e : ℕ) (ss : List Section)
    → Parts a ss (length lines)
    → Chained o (drop a lines) e
    → Measured body lines
    → All (λ (p : Placed). IsSmall body p.span) (place_all lines ss)
place_all-IsSmall body lines a o e [] h c k = tt
place_all-IsSmall body lines a o e (s ∷ ss) h c k =
    let size = s.last - s.first in
    let left = drop s.first lines in
    let here : Chained o left e = subst (λ z. Chained o (drop z lines) e) (sym h.0) c in
    let (m, ours, theirs) =
      Chained-split o e (take size left) (drop size left)
        (subst (λ ls. Chained o ls e) (sym (take-append-drop size left)) here) in
    let last_is : s.first + size ≡ s.last = omega (arith, h.0, h.1) in
    All-append _ (placed s.trail (windows (take size left))) (place_all lines ss)
      (placed-IsSmall body s.trail (windows (take size left))
        (windows-IsSmall body o m (take size left) ours (All-part _ s.first size lines k)))
      (place_all-IsSmall body lines s.last m e ss h.2
        (subst (λ ls. Chained m ls e)
          (drop_more s.first size lines ∙ ap (λ n. drop n lines) last_is) theirs)
        k)

number_from-IsSmall :
    (i : ℕ) (body : Text) (ps : List Placed)
    → All (λ (p : Placed). IsSmall body p.span) ps
    → All (λ (f : Fragment). byte_size f.text ≤ max_fragment_bytes) (number_from i body ps)
number_from-IsSmall i body [] h = tt
number_from-IsSmall i body (p ∷ ps) h = (h.0, number_from-IsSmall (suc i) body ps h.1)

-- No fragment that `fragment` cuts has more than 4000 bytes in UTF-8, whatever lines and words the
-- text has.
pub fragment_bytes :
    (body : Text) (source : Bool)
    → All (λ (f : Fragment). byte_size f.text ≤ max_fragment_bytes) (fragment body source)
unfolding fragment
fragment_bytes body source = elim (Bool-cases (is_empty body)) [
  | inl e ↦ rw (e, fragment) tt
  | inr e ↦
      elim (Bool-cases (
        leb (sum_words (lines_of body)) short_page_words
        && leb (byte_size body) max_fragment_bytes)) [
          | inl b ↦
              rw (e, b, fragment)
                (
                  leb→le (byte_size body) max_fragment_bytes
                      (&&-elim (leb (sum_words (lines_of body)) short_page_words) _ b).1,
                  tt,
                )
          | inr b ↦
              let (l, ls, filled) = lines_some body e in
              let lines = lines_of body in
              let tiled = lines_of-Tiled body in
              let parts : Parts 0 (sections body lines source) (length lines) =
                subst (λ z. Parts 0 (sections body z source) (length z)) (sym filled)
                  (sections-Parts body l ls source) in
              rw (e, b, fragment)
                (number_from-IsSmall 0 body _ (
                  place_all-IsSmall body lines 0 0 (0 + length body) _
                    (merged-Parts lines 0 (length lines) _ parts) (Tiled-Chained 0 body lines tiled)
                    (Tiled-Measured body 0 lines tiled)))
        ]
]
