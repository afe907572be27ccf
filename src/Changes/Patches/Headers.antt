-- ===== src/Changes/Patches/Headers.antt =====
-- The path that a patch's header names (`_header_path` of src/stigmergy/changes/diff.py).
use stigmergy.Prelude.{
  ℕ, ◌+◌, ◌≡◌, ◌≢◌, refl, sym, ap, ◌∙◌, subst, Bool, true, false, ◌&&◌, not, Option, none, some,
  ◌⊎◌, inl, inr, List, [], ◌∷◌, ◌++◌, arith, ◌==◌, length, length-append, all, Text, codes, text_eq,
  text_eq_iff, after_prefix, Bool-cases, Option-cases, &&-elim,
}
use stigmergy.Changes.Patches.{
  between, in_word, is_gap, is_quote, word_step, emit, shell_words, git_header, from_words,
  from_halves, without_prefix, from_raw, header_path,
}

-- a character that stands for itself in a shell word
abbrev pub is_plain : ℕ → Bool
is_plain c = not (is_gap c) && (not (is_quote c) && not (c == 92))

-- the header of a patch for one path
abbrev pub header : Text → Text
header p = git_header ++ (codes "a/" ++ (p ++ (codes " b/" ++ p)))

append_nil : (s : Text) → s ++ [] ≡ s
append_nil [] = refl
append_nil (c ∷ s) = ap (◌∷◌ c) (append_nil s)

append_assoc : (s t u : Text) → (s ++ t) ++ u ≡ s ++ (t ++ u)
append_assoc [] t u = refl
append_assoc (c ∷ s) t u = ap (◌∷◌ c) (append_assoc s t u)

plain_step :
    (token : Text) (c : ℕ) → is_plain c ≡ true → word_step token c ≡ (in_word, token ++ c ∷ [])
plain_step token c h =
    let q : is_quote c ≡ false = ground arith in
    let b : (c == 92) ≡ false = ground arith in rw (q, b) refl

shell_words-word :
    (token p rest : Text)
    → all is_plain p ≡ true
    → shell_words in_word token (p ++ rest) ≡ shell_words in_word (token ++ p) rest
unfolding shell_words
shell_words-word token [] rest h = rw (append_nil token) refl
shell_words-word token (c ∷ p) rest h =
    let (k, m) = &&-elim (is_plain c) (all is_plain p) h in
    let g : is_gap c ≡ false = ground arith in
    let again = shell_words-word (token ++ c ∷ []) p rest m in
    rw (g, plain_step token c k, again)
      (ap (λ t. shell_words in_word t rest) (append_assoc token (c ∷ []) p))

module _ (p : Text) where
  header_words :
      all is_plain p ≡ true
      → shell_words between [] (header p)
        ≡ some (codes "diff" ∷ (codes "--git" ∷ ((codes "a/" ++ p) ∷ ((codes "b/" ++ p) ∷ []))))
  unfolding shell_words
  header_words h =
      let first = shell_words-word (codes "a/") p (codes " b/" ++ p) h in
      let last : shell_words in_word (codes "b/") p ≡ some ((codes "b/" ++ p) ∷ []) =
        ap (shell_words in_word (codes "b/")) (sym (append_nil p))
        ∙ shell_words-word (codes "b/") p [] h in
      ap (λ o. emit (some (codes "diff")) (emit (some (codes "--git")) o))
        (first ∙ ap (emit (some (codes "a/" ++ p))) last)

  words_path :
      from_words
        (some (codes "diff" ∷ (codes "--git" ∷ ((codes "a/" ++ p) ∷ ((codes "b/" ++ p) ∷ [])))))
      ≡ some p
  unfolding from_words after_prefix text_eq
  words_path = rw ((text_eq_iff p p).1 refl) refl

after_prefix-length :
    (pre s t : Text) → after_prefix pre s ≡ some t → length s ≡ length pre + length t
unfolding after_prefix
after_prefix-length [] s t h =
    let e : s ≡ t = ap (λ (o : Option Text). elim o [ none ↦ t | some x ↦ x ]) h in
    omega (arith, ap length e)
after_prefix-length (p ∷ pre) [] t h = absurd (cc h)
after_prefix-length (p ∷ pre) (c ∷ s) t h = elim (Bool-cases (p == c)) [
  | inl e ↦ omega (arith, after_prefix-length pre s t (rw e at h))
  | inr e ↦ absurd (cc (rw e at h))
]

-- Only where both halves are the path do they have one length.
halves :
    (before mid : Text)
    → from_halves before (mid ++ (codes " b/" ++ (before ++ mid))) ≡ some (before ++ mid)
unfolding from_halves after_prefix
halves before [] =
    rw (ap (text_eq before) (append_nil before) ∙ (text_eq_iff before before).1 refl) refl
halves before (c ∷ cs) =
    let whole = codes " b/" ++ (before ++ c ∷ cs) in
    let again : from_halves (before ++ c ∷ []) (cs ++ whole) ≡ some (before ++ c ∷ cs) =
      subst (λ p. from_halves (before ++ c ∷ []) (cs ++ (codes " b/" ++ p)) ≡ some p)
        (append_assoc before (c ∷ []) cs) (halves (before ++ c ∷ []) cs) in
    elim (Option-cases (after_prefix (codes " b/") (c ∷ (cs ++ whole)))) [
      | inl e ↦ rw (e, from_halves) again
      | inr (after, e) ↦ elim (Bool-cases (text_eq before after)) [
        | inr f ↦ rw (e, from_halves, f) again
        | inl f ↦
            let same : before ≡ after = (text_eq_iff before after).0 f in
            let long = after_prefix-length (codes " b/") (c ∷ (cs ++ whole)) after e in
            absurd (
              omega (
                arith,
                long,
                ap length same,
                length-append cs whole,
                length-append before (c ∷ cs),
              ))
      ]
    ]

pub raw_of : (s : Text) → without_prefix (git_header ++ s) ≡ s
unfolding after_prefix
raw_of s = refl

raw_path : (p : Text) → from_raw (codes "a/" ++ (p ++ (codes " b/" ++ p))) ≡ some p
unfolding after_prefix
raw_path p = halves [] p

-- not four words: the path has a gap in it
four_words :
    (o : Option (List Text))
    → ((ws : List Text) → o ≡ some ws → length ws ≢ 4)
    → from_words o ≡ none
unfolding from_words
four_words none h = refl
four_words (some []) h = refl
four_words (some (a ∷ [])) h = refl
four_words (some (a ∷ b ∷ [])) h = refl
four_words (some (a ∷ b ∷ c ∷ [])) h = refl
four_words (some (a ∷ b ∷ c ∷ d ∷ [])) h = absurd (h (a ∷ b ∷ c ∷ d ∷ []) refl (omega arith))
four_words (some (a ∷ b ∷ c ∷ d ∷ e ∷ ws)) h = refl

-- The path of a header is read back as it is, when it has no blank, quotation mark or backslash, and
-- also whatever it has when the header does not read as four shell words.
pub header_path-header :
    (p : Text)
    → (all is_plain p ≡ true)
      ⊎ ((ws : List Text) → shell_words between [] (header p) ≡ some ws → length ws ≢ 4)
    → header_path (header p) ≡ some p
unfolding header_path
header_path-header p (inl h) =
    let e : from_words (shell_words between [] (header p)) ≡ some p =
      ap from_words (header_words p h) ∙ words_path p in
    rw (e, header_path) refl
header_path-header p (inr h) =
    let e : from_words (shell_words between [] (header p)) ≡ none = four_words _ h in
    rw (e, header_path)
      (ap from_raw (raw_of (codes "a/" ++ (p ++ (codes " b/" ++ p)))) ∙ raw_path p)
