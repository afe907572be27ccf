-- ===== src/Index/Fragments/Partition.antt =====
-- The sections of a body, before and after short ones are merged.
use stigmergy.Prelude.{
  ℕ, suc, ◌+◌, ◌≤◌, ◌<◌, ◌≡◌, refl, sym, ap, ◌∙◌, subst, Bool, true, false, not, inl, inr, Option,
  none, some, List, [], ◌∷◌, map, arith, ltb, lt→ltb, ◌==◌, ==_iff, if◌then◌else◌, Bool-cases,
  Option-cases, length, keep, Text,
}
use stigmergy.Index.Fragments.Lines.{Line}
use stigmergy.Index.Fragments.Sections.{
  Section, Crumb, Start, split_heads, heading, is_fence, splits, under, with_lead, bounded,
  line_text, sections, section_words, join_pending, close, backwards, merge_from, merged,
  min_section_words,
}

-- The sections lead from line `a` to line `b`: each starts at the line where the one before it ends.
abbrev pub Parts : ℕ → List Section → ℕ → Type 0
Parts a [] b = a ≡ b
Parts a (s ∷ ss) b = (s.first ≡ a) × (a < s.last) × Parts s.last ss b

-- the starts ascend from `i` on, below `n`
abbrev Ascending : ℕ → List Start → ℕ → Type 0
Ascending i [] n = i ≤ n
Ascending i (s ∷ ss) n = (i ≤ s.index) × Ascending (suc s.index) ss n

Ascending-sooner : (i : ℕ) (ss : List Start) (n : ℕ) → Ascending (suc i) ss n → Ascending i ss n
Ascending-sooner i [] n h = omega (arith, h)
Ascending-sooner i (s ∷ ss) n h = (omega (arith, h.0), h.1)

split_heads-Ascending :
    (source fenced : Bool) (trail : List Crumb) (i : ℕ) (texts : List Text)
    → Ascending i (split_heads source fenced trail i texts) (i + length texts)
unfolding split_heads
split_heads-Ascending source fenced trail i [] = omega arith
split_heads-Ascending source fenced trail i (t ∷ ts) =
    let total : suc i + length ts ≡ i + length (t ∷ ts) = omega arith in
    let onward = λ (f : Bool) (c : List Crumb).
      subst (Ascending (suc i) (split_heads source f c (suc i) ts)) total
        (split_heads-Ascending source f c (suc i) ts) in
    let skipped = λ (f : Bool) (c : List Crumb).
      Ascending-sooner i (split_heads source f c (suc i) ts) (i + length (t ∷ ts)) (onward f c) in
    elim (Bool-cases (is_fence t)) [
      | inl e ↦ rw (e, split_heads) (skipped (not fenced) trail)
      | inr e ↦ elim (Option-cases (if fenced then none else heading t)) [
        | inl n ↦ rw (e, n, split_heads) (skipped fenced trail)
        | inr (h, n) ↦ elim (Bool-cases (splits source h)) [
          | inr k ↦ rw (e, n, k, split_heads) (skipped fenced trail)
          | inl k ↦ rw (e, n, k, split_heads) (omega arith, onward fenced (under h trail))
        ]
      ]
    ]

bounded-Parts :
    (s : Start) (ss : List Start) (n : ℕ)
    → Ascending (suc s.index) ss n
    → Parts s.index (bounded (s ∷ ss) n) n
bounded-Parts s [] n h = (refl, omega (arith, h), refl)
bounded-Parts s (t ∷ ss) n h = (refl, omega (arith, h.0), bounded-Parts t ss n h.1)

with_lead-Parts :
    (ss : List Start) (n : ℕ) → Ascending 0 ss n → 1 ≤ n → Parts 0 (bounded (with_lead ss) n) n
with_lead-Parts [] n h p = bounded-Parts (record { index = 0; name = [] }) [] n p
with_lead-Parts (s ∷ ss) n h p = elim (Bool-cases (s.index == 0)) [
  | inl e ↦
      let zero_is : s.index ≡ 0 = (==_iff s.index 0).0 e in
      rw e (subst (λ z. Parts z (bounded (s ∷ ss) n) n) zero_is (bounded-Parts s ss n h.1))
  | inr e ↦
      rw e (bounded-Parts (record { index = 0; name = [] }) (s ∷ ss) n (ground (arith, e), h.1))
]

keep-Parts : (a b : ℕ) (ss : List Section) → Parts a ss b → keep (λ s. ltb s.first s.last) ss ≡ ss
keep-Parts a b [] h = refl
keep-Parts a b (s ∷ ss) h =
    let wide : ltb s.first s.last ≡ true = lt→ltb s.first s.last (omega (arith, h.0, h.1)) in
    rw wide (ap (◌∷◌ s) (keep-Parts s.last b ss h.2))

length-map {ℓ} : {A : Type ℓ} {B : Type ℓ} (f : A → B) (xs : List A) → length (map f xs) ≡ length xs
length-map f [] = refl
length-map f (x ∷ xs) = ap suc (length-map f xs)

-- The sections of a body with lines lead from its first line to its last.
pub sections-Parts :
    (body : Text) (l : Line) (ls : List Line) (source : Bool)
    → Parts 0 (sections body (l ∷ ls) source) (length (l ∷ ls))
unfolding sections
sections-Parts body l ls source =
    let texts = map (line_text body) (l ∷ ls) in
    let heads = split_heads source false [] 0 texts in
    let count : 0 + length texts ≡ length (l ∷ ls) =
      omega (arith, length-map (line_text body) (l ∷ ls)) in
    let up = subst (Ascending 0 heads) count (split_heads-Ascending source false [] 0 texts) in
    let parts = with_lead-Parts heads (length (l ∷ ls)) up (omega arith) in
    subst (λ ss. Parts 0 ss (length (l ∷ ls)))
      (sym (keep-Parts 0 (length (l ∷ ls)) (bounded (with_lead heads) (length (l ∷ ls))) parts))
      parts

-- the same, with the last section first
abbrev PartsBack : ℕ → List Section → ℕ → Type 0
PartsBack a [] b = a ≡ b
PartsBack a (s ∷ ss) b = (s.last ≡ b) × (s.first < b) × PartsBack a ss s.first

backwards-Parts :
    (a m b : ℕ) (ss acc : List Section)
    → PartsBack a ss m
    → Parts m acc b
    → Parts a (backwards ss acc) b
backwards-Parts a m b [] acc h k = subst (λ z. Parts z acc b) (sym h) k
backwards-Parts a m b (s ∷ ss) acc h k =
    backwards-Parts a s.first b ss (s ∷ acc) h.2
      (refl, omega (arith, h.0, h.1), subst (λ z. Parts z acc b) (sym h.0) k)

-- the pending section, if any, leads from `m` to `q`
abbrev Between : ℕ → Option Section → ℕ → Type 0
Between m none q = m ≡ q
Between m (some p) q = (p.first ≡ m) × (p.last ≡ q) × (m < q)

close-Parts :
    (a m q : ℕ) (ss : List Section) (pending : Option Section)
    → PartsBack a ss m
    → Between m pending q
    → PartsBack a (close ss pending) q
close-Parts a m q ss none h k = subst (PartsBack a ss) k h
close-Parts a m q [] (some p) h k = (k.1, omega (arith, k.0, k.2), h ∙ sym k.0)
close-Parts a m q (s ∷ ss) (some p) h k = (k.1, omega (arith, h.1, k.2), h.2)

join_pending-Between :
    (m q : ℕ) (pending : Option Section) (s : Section)
    → Between m pending q
    → s.first ≡ q
    → q < s.last
    → Between m (some (join_pending pending s)) s.last
join_pending-Between m q none s h e w = (e ∙ sym h, refl, omega (arith, h, w))
join_pending-Between m q (some p) s h e w = (h.0, refl, omega (arith, h.2, w))

merge_from-Parts :
    (lines : List Line) (a m q b : ℕ) (done : List Section) (pending : Option Section)
    (rest : List Section)
    → PartsBack a done m
    → Between m pending q
    → Parts q rest b
    → Parts a (merge_from lines done pending rest) b
unfolding merge_from
merge_from-Parts lines a m q b done pending [] h k r =
    backwards-Parts a b b (close done pending) []
      (subst (PartsBack a (close done pending)) r (close-Parts a m q done pending h k)) refl
merge_from-Parts lines a m q b done pending (s ∷ rest) h k r =
    let whole = join_pending pending s in
    let joins = join_pending-Between m q pending s k r.0 r.1 in
    elim (Bool-cases (ltb (section_words lines whole) min_section_words)) [
      | inl e ↦
          rw (e, merge_from)
            (merge_from-Parts lines a m s.last b done (some whole) rest h joins r.2)
      | inr e ↦
          rw (e, merge_from)
            (merge_from-Parts lines a s.last s.last b (whole ∷ done) none rest
              (joins.1, omega (arith, joins.0, joins.2), subst (PartsBack a done) (sym joins.0) h)
              refl r.2)
    ]

-- Merging short sections keeps every line in a section.
pub merged-Parts :
    (lines : List Line) (a b : ℕ) (ss : List Section) → Parts a ss b → Parts a (merged ss lines) b
unfolding merged
merged-Parts lines a b ss h = merge_from-Parts lines a a a b [] none ss refl refl h
