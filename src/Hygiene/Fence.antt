-- ===== src/Hygiene/Fence.antt =====
-- What fenced text cannot spell.
use stigmergy.Prelude.{
  ℕ, zero, suc, ◌≡◌, refl, sym, ap, ◌∙◌, Bool, true, false, ◌||◌, inl, inr, [], ◌∷◌, ◌++◌, ◌==◌,
  is_some, Bool-cases, Text, codes, after_prefix,
}
use stigmergy.Hygiene.{token, joiner, replace_from, neutralize_fence}

-- `mark in text`
unfoldable pub contains : Text → Text → Bool
unfolding after_prefix
contains mark [] = is_some (after_prefix mark [])
contains mark (c ∷ cs) = is_some (after_prefix mark (c ∷ cs)) || contains mark cs

abbrev neutral : Text
neutral = token ++ joiner ∷ []

-- no end of the token is a beginning of it
abbrev IsApart : Text → Type 0
IsApart [] = Unit
IsApart (q ∷ qs) =
    ((rest : Text) → is_some (after_prefix (q ∷ qs) (neutral ++ rest)) ≡ false) × IsApart qs

tail_IsApart : IsApart (codes "NTRUSTED-DATA")
unfolding after_prefix
tail_IsApart = (
  λ r. refl,
  (
    λ r. refl,
    (
      λ r. refl,
      (
        λ r. refl,
        (
          λ r. refl,
          (
            λ r. refl,
            (
              λ r. refl,
              (λ r. refl, (λ r. refl, (λ r. refl, (λ r. refl, (λ r. refl, (λ r. refl, tt)))))),
            ),
          ),
        ),
      ),
    ),
  ),
)

abbrev Starts : Text → Text → Type 0
Starts p s = is_some (after_prefix p s) ≡ true

shorter : (p q s : Text) → Starts (p ++ q) s → Starts p s
unfolding after_prefix
shorter [] q s h = refl
shorter (c ∷ p) q [] h = absurd (cc h)
shorter (c ∷ p) q (d ∷ s) h = elim (Bool-cases (c == d)) [
  | inl e ↦ rw e (shorter p q s (rw e at h))
  | inr e ↦ absurd (cc (rw e at h))
]

-- What the new text begins with within a token, the old text begins with.
mirrors : (p s : Text) → IsApart p → Starts p (replace_from token neutral 0 s) → Starts p s
unfolding replace_from after_prefix
mirrors [] s a h = refl
mirrors (q ∷ p) [] a h = absurd (cc h)
mirrors (q ∷ p) (c ∷ cs) a h = elim (Bool-cases (is_some (after_prefix token (c ∷ cs)))) [
  | inl e ↦
      let out : replace_from token neutral 0 (c ∷ cs)
          ≡ neutral ++ replace_from token neutral 13 cs =
        rw (e, replace_from) refl in
      absurd (
        cc (
          sym (a.0 (replace_from token neutral 13 cs))
          ∙ ap (λ z. is_some (after_prefix (q ∷ p) z)) (sym out)
          ∙ h))
  | inr e ↦
      let out : replace_from token neutral 0 (c ∷ cs) ≡ c ∷ replace_from token neutral 0 cs =
        rw (e, replace_from) refl in
      let first : Starts (q ∷ p) (c ∷ replace_from token neutral 0 cs) =
        ap (λ z. is_some (after_prefix (q ∷ p) z)) (sym out) ∙ h in
      elim (Bool-cases (q == c)) [
        | inl g ↦ rw g (mirrors p cs a.1 (rw g at first))
        | inr g ↦ absurd (cc (rw g at first))
      ]
]

module _ (x : ℕ) (m : Text) (other : (x == joiner) ≡ false) where
  abbrev mark : Text
  mark = token ++ x ∷ m

  not_first :
      (c : ℕ) (cs : Text)
      → is_some (after_prefix token (c ∷ cs)) ≡ false
      → is_some (after_prefix mark (c ∷ replace_from token neutral 0 cs)) ≡ false
  unfolding after_prefix
  not_first c cs e =
      elim (Bool-cases (is_some (after_prefix mark (c ∷ replace_from token neutral 0 cs)))) [
        | inr g ↦ g
        | inl g ↦ elim (Bool-cases (b'U' == c)) [
          | inr k ↦ rw k
          | inl k ↦
              let there : Starts (codes "NTRUSTED-DATA" ++ x ∷ m)
                  (replace_from token neutral 0 cs) =
                rw k at g in
              let here : Starts (codes "NTRUSTED-DATA") cs =
                mirrors (codes "NTRUSTED-DATA") cs tail_IsApart (
                  shorter (codes "NTRUSTED-DATA") (x ∷ m) (replace_from token neutral 0 cs)
                    there) in
              absurd (cc (sym here ∙ (rw k at e)))
        ]
      ]

  replaced_free : (skip : ℕ) (s : Text) → contains mark (replace_from token neutral skip s) ≡ false
  unfolding replace_from contains after_prefix
  replaced_free skip [] = refl
  replaced_free (suc skip) (c ∷ cs) = replaced_free skip cs
  replaced_free zero (c ∷ cs) = elim (Bool-cases (is_some (after_prefix token (c ∷ cs)))) [
    | inl e ↦
        let out : replace_from token neutral 0 (c ∷ cs)
            ≡ neutral ++ replace_from token neutral 13 cs =
          rw (e, replace_from) refl in
        ap (contains mark) out ∙ rw other (replaced_free 13 cs)
    | inr e ↦
        let out : replace_from token neutral 0 (c ∷ cs) ≡ c ∷ replace_from token neutral 0 cs =
          rw (e, replace_from) refl in
        ap (contains mark) out ∙ rw (not_first c cs e) (replaced_free 0 cs)
  ]

  -- However untrusted text is written, after `neutralize_fence` it does not hold the token followed by
  -- anything but a word joiner: so it spells neither the mark that opens the fence nor the one that
  -- closes it.
  pub neutralize_fence_lem :
      (body : Text) → contains (token ++ x ∷ m) (neutralize_fence body) ≡ false
  unfolding neutralize_fence
  neutralize_fence_lem body = replaced_free 0 body
