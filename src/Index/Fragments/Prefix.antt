-- ===== src/Index/Fragments/Prefix.antt =====
-- Beginnings of texts, and their bytes.
use mathlib.Core.List.{append_assoc}
use stigmergy.Prelude.{
  ℕ, zero, suc, ◌+◌, ◌-◌, ◌≤◌, ◌≡◌, refl, sym, ap, ◌∙◌, subst, Bool, false, ◌||◌, inl, inr, [], ◌∷◌,
  ◌++◌, arith, ltb, leb, leb→le, Bool-cases, length, take, drop, take-append-drop, Text, is_space,
  is_empty,
}
use stigmergy.Index.Fragments.Lines.{
  char_size, byte_size, take_while, drop_while, in_word, Run, take_words, within, up_to_stop, piece,
  reach, max_fragment_bytes, overlap_cap_words,
}

pub byte_size-append : (a b : Text) → byte_size (a ++ b) ≡ byte_size a + byte_size b
unfolding byte_size
byte_size-append [] b = omega arith
byte_size-append (c ∷ a) b = omega (arith, byte_size-append a b)

-- `a` is a beginning of `b`
pub record IsPrefix (a b : Text) : Type 0 where
  pub rest : Text
  pub whole : b ≡ a ++ rest

prefix_nil : (b : Text) → IsPrefix [] b
prefix_nil b = record { rest = b; whole = refl }

prefix_append : (a b c r : Text) → c ≡ a ++ r → IsPrefix b r → IsPrefix (a ++ b) c
prefix_append a b c r e q = record {
  rest = q.rest;
  whole = e ∙ ap (◌++◌ a) q.whole ∙ sym (append_assoc a b q.rest);
}

prefix_trans : (a b c : Text) → IsPrefix a b → IsPrefix b c → IsPrefix a c
prefix_trans a b c p q = record {
  rest = p.rest ++ q.rest;
  whole = q.whole ∙ ap (λ z. z ++ q.rest) p.whole ∙ append_assoc a p.rest q.rest;
}

take_prefix : (n : ℕ) (t : Text) → IsPrefix (take n t) t
take_prefix n t = record { rest = drop n t; whole = sym (take-append-drop n t) }

pub drop-prefix : (a r : Text) → drop (length a) (a ++ r) ≡ r
drop-prefix [] r = refl
drop-prefix (c ∷ a) r = drop-prefix a r

take_while-drop_while : (p : ℕ → Bool) (t : Text) → t ≡ take_while p t ++ drop_while p t
take_while-drop_while p [] = refl
take_while-drop_while p (c ∷ t) = elim (Bool-cases (p c)) [
  | inl e ↦ rw e (ap (◌∷◌ c) (take_while-drop_while p t))
  | inr e ↦ rw e
]

while_prefix : (p : ℕ → Bool) (t : Text) → IsPrefix (take_while p t) t
while_prefix p t = record { rest = drop_while p t; whole = take_while-drop_while p t }

-- What a scan for words gives: a beginning of what it saw, with its bytes counted and within the limit.
take_words-prefix :
    (left size : ℕ) (seen : Text)
    → size ≤ max_fragment_bytes
    → (IsPrefix (take_words left size seen).taken seen)
      × ((take_words left size seen).size ≡ size + byte_size (take_words left size seen).taken)
      × ((take_words left size seen).size ≤ max_fragment_bytes)
      × ((take_words left size seen).count ≤ left)
unfolding take_words
take_words-prefix zero size seen h =
    (prefix_nil seen, unfold byte_size in omega arith, h, omega arith)
take_words-prefix (suc left) size seen h =
    let gap = take_while is_space seen in
    let after = drop_while is_space seen in
    let word = take_while in_word after in
    let grown = size + byte_size (gap ++ word) in
    let last = drop_while in_word after in
    elim (Bool-cases (is_empty word || ltb max_fragment_bytes grown)) [
      | inl e ↦
          rw (e, take_words) (prefix_nil seen, unfold byte_size in omega arith, h, omega arith)
      | inr e ↦
          let (p, c, b, f) = take_words-prefix left grown last (ground (arith, e)) in
          let split : seen ≡ (gap ++ word) ++ last =
            take_while-drop_while is_space seen
            ∙ ap (◌++◌ gap) (take_while-drop_while in_word after)
            ∙ sym (append_assoc gap word last) in
          rw (e, take_words)
            (
              prefix_append (gap ++ word) (take_words left grown last).taken seen last split p,
              c ∙ omega (arith, byte_size-append (gap ++ word) (take_words left grown last).taken),
              b,
              omega (arith, f),
            )
    ]

char_size-bounds : (c : ℕ) → (1 ≤ char_size c) × (char_size c ≤ 4)
char_size-bounds c = ground arith

within-prefix :
    (limit : ℕ) (t : Text) → IsPrefix (within limit t) t × (byte_size (within limit t) ≤ limit)
unfolding within byte_size
within-prefix limit [] = (prefix_nil [], omega arith)
within-prefix limit (c ∷ cs) = elim (Bool-cases (leb (char_size c) limit)) [
  | inl e ↦
      let (p, b) = within-prefix (limit - char_size c) cs in
      rw (e, within)
        (
          record { rest = p.rest; whole = ap (◌∷◌ c) p.whole },
          omega (arith, b, leb→le (char_size c) limit e),
        )
  | inr e ↦ rw (e, within) (prefix_nil (c ∷ cs), omega arith)
]

within-some : (c : ℕ) (cs : Text) → is_empty (within max_fragment_bytes (c ∷ cs)) ≡ false
unfolding within
within-some c cs = ground (arith, char_size-bounds c)

up_to_stop-prefix :
    (raw seen : Text)
    → IsPrefix seen raw
    → let (head, size) = up_to_stop (take_words overlap_cap_words 0 seen) raw in
      IsPrefix head raw × (size ≡ byte_size head) × (size ≤ max_fragment_bytes)
up_to_stop-prefix raw seen sub =
    let run = take_words overlap_cap_words 0 seen in
    let (p, c, b, f) = take_words-prefix overlap_cap_words 0 seen (omega arith) in
    elim (Bool-cases (is_empty run.taken)) [
      | inl e ↦ let (q, d) = within-prefix max_fragment_bytes raw in rw e (q, refl, d)
      | inr e ↦ rw e (prefix_trans run.taken seen raw p sub, omega (arith, c), b)
    ]

up_to_stop-some : (c : ℕ) (cs : Text) (run : Run) → is_empty (up_to_stop run (c ∷ cs)).0 ≡ false
up_to_stop-some c cs run = elim (Bool-cases (is_empty run.taken)) [
  | inl e ↦ rw e (within-some c cs)
  | inr e ↦ rw e e
]

ltb-false : (a b : ℕ) → ltb a b ≡ false → b ≤ a
ltb-false a b h = ground arith

is_empty-append : (a b : Text) → is_empty a ≡ false → is_empty (a ++ b) ≡ false
is_empty-append [] b h = absurd (cc h)
is_empty-append (c ∷ a) b h = refl

-- A piece is a beginning of what is left of its line; it is not empty and fits the bytes.
pub piece-prefix :
    (c : ℕ) (cs : Text)
    → IsPrefix (piece (c ∷ cs)).text (c ∷ cs)
      × (is_empty (piece (c ∷ cs)).text ≡ false)
      × (byte_size (piece (c ∷ cs)).text ≤ max_fragment_bytes)
unfolding piece
piece-prefix c cs =
    let raw = c ∷ cs in
    let run = take_words overlap_cap_words 0 (take reach raw) in
    let (p, counted, bounded) = up_to_stop-prefix raw (take reach raw) (take_prefix reach raw) in
    let some = up_to_stop-some c cs run in
    let head = (up_to_stop run raw).0 in
    let size = (up_to_stop run raw).1 in
    let after = drop (length head) raw in
    let gap = take_while is_space (take reach after) in
    let rest_is : after ≡ p.rest = ap (drop (length head)) p.whole ∙ drop-prefix head p.rest in
    let both : IsPrefix (head ++ gap) raw = prefix_append head gap raw p.rest p.whole (
      subst (IsPrefix gap) rest_is (
        prefix_trans gap (take reach after) after (while_prefix is_space (take reach after))
          (take_prefix reach after))) in
    elim (Bool-cases (ltb max_fragment_bytes (size + byte_size gap))) [
      | inl e ↦ rw e (p, some, rw counted at bounded)
      | inr e ↦ rw e (
        both,
        is_empty-append head gap some,
        omega (arith, byte_size-append head gap, counted, ltb-false _ _ e),
      )
    ]
