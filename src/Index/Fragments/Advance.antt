-- ===== src/Index/Fragments/Advance.antt =====
-- The windows of a section, one after the other.
use mathlib.Core.List.{append_assoc}
use stigmergy.Prelude.{
  ℕ, zero, suc, ◌+◌, ◌≤◌, ◌<◌, ◌≡◌, refl, sym, ap, ◌∙◌, subst, Bool, true, false, ◌&&◌, inl, inr,
  ◌⊎◌, Option, none, some, List, [], ◌∷◌, ◌++◌, arith, leb, leb→le, if◌then◌else◌, Bool-cases,
  List-cases, Option-cases, length, length-append, is_empty,
}
use stigmergy.Index.Fragments.Lines.{Line, max_fragment_bytes, window_words, overlap_cap_words}
use stigmergy.Index.Fragments.Windows.{
  sum_words, sum_bytes, Split, grow, Paragraph, last_blank, at_paragraph, paragraph_words,
  window_of, overlap, last_end, tail_of, slide, windows, section_max_words,
}
use stigmergy.Index.Fragments.Chain.{
  Chained, Covers, Chained-le, Chained-split, Chained-end, Chained-append, last_end-Chained,
}
use stigmergy.Index.Fragments.Overlap.{overlap_quarter}

-- `window` and `after` split `ls`, and the window goes past `kept` to `next` at least.
pub record Extends (kept : List Line) (next : Line) (ls : List Line) (s : Split) : Type 0 where
  pub more : List Line
  pub past : s.window ≡ kept ++ next ∷ more
  pub whole : ls ≡ s.window ++ s.after

-- The lines `kept`, which the window before had too, leave room for the line after them.
abbrev pub Fits : List Line → Line → Type 0
Fits kept next =
    (kept ≡ [])
    ⊎ ((sum_words kept ≤ overlap_cap_words)
        × (sum_words kept + next.words ≤ window_words)
        × (sum_bytes kept + next.size ≤ max_fragment_bytes))

grow-splits :
    (words bytes : ℕ) (ls : List Line)
    → ls ≡ (grow words bytes ls).window ++ (grow words bytes ls).after
unfolding grow
grow-splits words bytes [] = refl
grow-splits words bytes (l ∷ ls) =
    elim (Bool-cases
      (leb (words + l.words) window_words && leb (bytes + l.size) max_fragment_bytes)) [
        | inl e ↦ rw e (ap (◌∷◌ l) (grow-splits (words + l.words) (bytes + l.size) ls))
        | inr e ↦ rw e
      ]

-- Growing takes the lines that fit together.
grow-extends :
    (words bytes : ℕ) (kept : List Line) (next : Line) (more : List Line)
    → words + (sum_words kept + next.words) ≤ window_words
    → bytes + (sum_bytes kept + next.size) ≤ max_fragment_bytes
    → (w : List Line) × ((grow words bytes (kept ++ next ∷ more)).window ≡ kept ++ next ∷ w)
unfolding grow
grow-extends words bytes [] next more h k =
    let fits : (leb (words + next.words) window_words && leb (bytes + next.size) max_fragment_bytes)
        ≡ true =
      ground (arith, h, k) in
    ((grow (words + next.words) (bytes + next.size) more).window, rw fits)
grow-extends words bytes (l ∷ kept) next more h k =
    let fits : (leb (words + l.words) window_words && leb (bytes + l.size) max_fragment_bytes)
        ≡ true =
      ground (arith, h, k) in
    let (w, e) =
      grow-extends (words + l.words) (bytes + l.size) kept next more (omega (arith, h))
        (omega (arith, k)) in
    (w, rw fits (ap (◌∷◌ l) e))

chosen : (b : Bool) (q p : Paragraph) → (if b then some q else none) ≡ some p → q ≡ p
chosen true q p h = cc h
chosen false q p h = absurd (cc h)

pub last_blank-splits :
    (ls : List Line) (p : Paragraph)
    → last_blank ls ≡ some p
    → ls ≡ p.before ++ p.blank_line ∷ p.behind
unfolding last_blank
last_blank-splits [] p h = absurd (cc h)
last_blank-splits (l ∷ ls) p h = elim (Option-cases (last_blank ls)) [
  | inl e ↦
      subst (λ (q : Paragraph). l ∷ ls ≡ q.before ++ q.blank_line ∷ q.behind)
        (chosen l.blank (record { before = []; blank_line = l; behind = ls }) p (rw e at h)) refl
  | inr (q, e) ↦
      let same : ◌≡◌ {A = Option Paragraph} (some (record q { before = l ∷ q.before })) (some p) =
        rw e at h in
      let found : record q { before = l ∷ q.before } ≡ p = cc same in
      subst (λ (z : Paragraph). l ∷ ls ≡ z.before ++ z.blank_line ∷ z.behind) found
        (ap (◌∷◌ l) (last_blank-splits ls q e))
]

-- Of two beginnings of a list, the one with more words goes past the other.
longer-extends :
    (kept before : List Line) (next x : Line) (more behind : List Line)
    → kept ++ next ∷ more ≡ before ++ x ∷ behind
    → sum_words kept < sum_words before
    → (w : List Line) × (before ++ x ∷ [] ≡ kept ++ next ∷ w)
longer-extends [] [] next x more behind e h = absurd (omega (arith, h))
longer-extends [] (y ∷ ys) next x more behind e h =
    let same : next ≡ y = cc e in (ys ++ x ∷ [], ap (λ z. z ∷ (ys ++ x ∷ [])) (sym same))
longer-extends (k ∷ ks) [] next x more behind e h = absurd (omega (arith, h))
longer-extends (k ∷ ks) (y ∷ ys) next x more behind e h =
    let same : k ≡ y = cc e in
    let rest : ks ++ next ∷ more ≡ ys ++ x ∷ behind = cc e in
    let words : k.words ≡ y.words = ap (λ (l : Line). l.words) same in
    let (w, q) = longer-extends ks ys next x more behind rest (omega (arith, h, words)) in
    (w, ap (λ z. z ∷ (ys ++ x ∷ [])) (sym same) ∙ ap (◌∷◌ k) q)

at_paragraph-Extends :
    (kept : List Line) (next l : Line) (rest after more : List Line)
    → l ∷ rest ≡ kept ++ next ∷ more
    → (kept ≡ []) ⊎ (sum_words kept ≤ overlap_cap_words)
    → Extends kept next (l ∷ (rest ++ after)) (at_paragraph l rest after)
unfolding at_paragraph
at_paragraph-Extends kept next l rest after more e room = elim (Option-cases (last_blank rest)) [
  | inl n ↦ rw (n, at_paragraph) (record { more = more; past = e; whole = refl })
  | inr (p, n) ↦ elim (Bool-cases (leb paragraph_words (sum_words (l ∷ p.before)))) [
    | inr b ↦ rw (n, at_paragraph) (rw b (record { more = more; past = e; whole = refl }))
    | inl b ↦
        let parts = last_blank-splits rest p n in
        let enough = leb→le paragraph_words (sum_words (l ∷ p.before)) b in
        let few : sum_words kept ≤ overlap_cap_words = elim room [
          | inl z ↦ rw z (omega arith)
          | inr z ↦ z
        ] in
        let (w, q) =
          longer-extends kept (l ∷ p.before) next p.blank_line more p.behind
            (sym e ∙ ap (◌∷◌ l) parts) (omega (arith, enough, few)) in
        rw (n, at_paragraph)
          (rw b (record {
            more = w;
            past = q;
            whole = ap (◌∷◌ l) (
                ap (λ z. z ++ after) parts
                ∙ append_assoc p.before (p.blank_line ∷ p.behind) after
                ∙ sym (append_assoc p.before (p.blank_line ∷ []) (p.behind ++ after)));
          }))
  ]
]

-- A window goes past what it shares with the one before it.
pub window_of-Extends :
    (kept : List Line) (next l : Line) (ls more : List Line)
    → l ∷ ls ≡ kept ++ next ∷ more
    → Fits kept next
    → Extends kept next (l ∷ ls) (window_of l ls)
unfolding window_of
window_of-Extends kept next l ls more e room =
    let grown = grow l.words l.size ls in
    let parts = grow-splits l.words l.size ls in
    let far : (w : List Line) × (l ∷ grown.window ≡ kept ++ next ∷ w) = reached kept e room in
    elim (Bool-cases (is_empty grown.after)) [
      | inl n ↦
          rw (n, window_of)
            (record {
              more = far.0;
              past = far.1;
              whole = ap (◌∷◌ l) (parts ∙ ap (◌++◌ grown.window) (nothing grown.after n));
            })
      | inr n ↦
          rw (n, window_of)
            (subst (λ z. Extends kept next (l ∷ z) (at_paragraph l grown.window grown.after))
              (sym parts)
              (at_paragraph-Extends kept next l grown.window grown.after far.0 far.1
                (elim room [ inl z ↦ inl z | inr z ↦ inr z.0 ])))
    ]
  where
    nothing : (xs : List Line) → is_empty xs ≡ true → xs ≡ []
    nothing [] h = refl
    nothing (x ∷ xs) h = absurd (cc h)

    reached :
        (ks : List Line)
        → l ∷ ls ≡ ks ++ next ∷ more
        → Fits ks next
        → (w : List Line) × (l ∷ (grow l.words l.size ls).window ≡ ks ++ next ∷ w)
    reached [] q fits =
        let same : l ≡ next = cc q in
        ((grow l.words l.size ls).window, ap (λ z. z ∷ (grow l.words l.size ls).window) same)
    reached (k ∷ ks) q (inl z) = absurd (cc z)
    reached (k ∷ ks) q (inr (cap, few, small)) =
        let same : l ≡ k = cc q in
        let rest : ls ≡ ks ++ next ∷ more = cc q in
        let words : l.words ≡ k.words = ap (λ (z : Line). z.words) same in
        let bytes : l.size ≡ k.size = ap (λ (z : Line). z.size) same in
        let (w, far) =
          grow-extends l.words l.size ks next more (omega (arith, few, words))
            (omega (arith, small, bytes)) in
        (w, rw rest (ap (◌∷◌ l) far ∙ ap (λ z. z ∷ (ks ++ next ∷ w)) same))

pub headed :
    (kept : List Line) (next : Line) (more w after : List Line) (l : Line) (ls : List Line)
    → w ≡ kept ++ next ∷ more
    → l ∷ ls ≡ w ++ after
    → w ≡ l ∷ tail_of w
headed [] next more [] after l ls p e = absurd (cc p)
headed (k ∷ ks) next more [] after l ls p e = absurd (cc p)
headed kept next more (x ∷ xs) after l ls p e =
    let same : l ≡ x = cc e in ap (λ z. z ∷ xs) (sym same)

-- From any window on: the windows cover what is left of the section, up to its end, and each goes
-- past the end of the one before it. One turn for each line is enough.
slide-Covers :
    (fuel : ℕ) (zs kept : List Line) (next : Line) (more : List Line) (o a e : ℕ)
    → zs ≡ kept ++ next ∷ more
    → Chained o kept a
    → Chained a (next ∷ more) e
    → Fits kept next
    → length zs ≤ fuel
    → Covers a (slide fuel zs) e
unfolding slide
slide-Covers fuel [] [] next more o a e q back ahead room enough = absurd (cc q)
slide-Covers fuel [] (k ∷ ks) next more o a e q back ahead room enough = absurd (cc q)
slide-Covers zero (l ∷ ls) kept next more o a e q back ahead room enough =
    absurd (omega (arith, enough))
slide-Covers (suc fuel) (l ∷ ls) kept next more o a e q back ahead room enough =
    let cut = window_of l ls in
    let far = window_of-Extends kept next l ls more q room in
    let rest = tail_of cut.window in
    let front : cut.window ≡ l ∷ rest =
      headed kept next far.more cut.window cut.after l ls far.past far.whole in
    let chain : Chained o (l ∷ ls) e =
      subst (λ z. Chained o z e) (sym q) (Chained-append o a e kept (next ∷ more) back ahead) in
    let (m, inside, behind) =
      Chained-split o e cut.window cut.after (subst (λ z. Chained o z e) far.whole chain) in
    let (a', c1, c2) =
      Chained-split o m kept (next ∷ far.more) (subst (λ z. Chained o z m) far.past inside) in
    let same : a ≡ a' = Chained-end o a a' kept back c1 in
    let past : a < m = omega (arith, same, c2.1, Chained-le next.end m far.more c2.3) in
    let ours : Chained o (l ∷ rest) m = subst (λ z. Chained o z m) front inside in
    let ends : last_end l.end rest ≡ m = last_end-Chained o m (l ∷ rest) ours in
    let begins : l.start ≤ a = omega (arith, ours.0, Chained-le o a kept back) in
    elim (List-cases cut.after) [
      | inl n ↦
          let done : m ≡ e = subst (λ z. Chained m z e) n behind in
          rw (n, slide) (begins, omega (arith, past, ends), ends ∙ done)
      | inr (y, ys, n) ↦
          let kept' = overlap l rest y in
          let ((head, split), words, bytes, few, fits) = overlap_quarter l rest y in
          let (o', c3, c4) =
            Chained-split o m (l ∷ head) kept' (subst (λ z. Chained o (l ∷ z) m) split ours) in
          let onward : Chained m (y ∷ ys) e = subst (λ z. Chained m z e) n behind in
          let room' : Fits kept' y = elim fits [ inl z ↦ inl z | inr z ↦ inr (few, z.0, z.1) ] in
          let total : length (l ∷ ls) ≡ length (l ∷ rest) + length (y ∷ ys) =
            ap length (far.whole ∙ ap (λ z. z ++ cut.after) front ∙ ap (◌++◌ (l ∷ rest)) n)
            ∙ length-append (l ∷ rest) (y ∷ ys) in
          let whole : length rest ≡ length head + length kept' =
            ap length split ∙ length-append head kept' in
          let ih =
            slide-Covers fuel (kept' ++ y ∷ ys) kept' y ys o' m e refl c4 onward room'
              (omega (arith, total, whole, enough, length-append kept' (y ∷ ys))) in
          rw (n, slide)
            (
              begins,
              omega (arith, past, ends),
              subst (λ z. Covers z (slide fuel (kept' ++ y ∷ ys)) e) (sym ends) ih,
            )
    ]

-- The windows of a section cover it from its first line to its last one: each starts at or before the
-- end of the one before it and ends after that.
pub windows-Covers :
    (o e : ℕ) (l : Line) (ls : List Line) → Chained o (l ∷ ls) e → Covers o (windows (l ∷ ls)) e
unfolding windows
windows-Covers o e l ls h =
    elim (Bool-cases
      (leb (sum_words (l ∷ ls)) section_max_words && leb (sum_bytes (l ∷ ls)) max_fragment_bytes)) [
        | inl b ↦
            let ends : last_end l.end ls ≡ e = last_end-Chained o e (l ∷ ls) h in
            rw b (omega (arith, h.0), omega (arith, ends, h.1, Chained-le l.end e ls h.3), ends)
        | inr b ↦ rw b (
            slide-Covers (length (l ∷ ls)) (l ∷ ls) [] l ls o o e refl refl h (inl refl)
              (omega arith))
      ]
