-- ===== src/Prelude/Lists.antt =====
-- Lists measured by native numbers, predicates on all elements, search, and rows of a table.
use Prim.Native.Nat.{ℕ, zero, suc, ◌+◌, ◌≤◌}
use mathlib.Core.Path.{◌≡◌, refl, sym, ap, subst}
use mathlib.Core.Bool.{Bool, true, false, ◌&&◌, ◌||◌}
use mathlib.Core.List.{List, [], ◌∷◌, ◌++◌}
use mathlib.Core.Option.{Option, none, some}
use native.Mathlib.Omega.{arith}
use stigmergy.Prelude.Tests.{if◌then◌else◌, Bool-cases}
use mathlib.Core.Logic.{◌⊎◌, inl, inr}

module _ {ℓ} {A : Type ℓ} where
  abbrev pub length : List A → ℕ
  length [] = 0
  length (x ∷ xs) = suc (length xs)

  abbrev pub take : ℕ → List A → List A
  take zero xs = []
  take (suc n) [] = []
  take (suc n) (x ∷ xs) = x ∷ take n xs

  abbrev pub drop : ℕ → List A → List A
  drop zero xs = xs
  drop (suc n) [] = []
  drop (suc n) (x ∷ xs) = drop n xs

  abbrev pub find : (A → Bool) → List A → Option A
  find p [] = none
  find p (x ∷ xs) = let rest = find p xs in if p x then some x else rest

  abbrev pub keep : (A → Bool) → List A → List A
  keep p [] = []
  keep p (x ∷ xs) = let rest = keep p xs in if p x then x ∷ rest else rest

  abbrev pub any : (A → Bool) → List A → Bool
  any p [] = false
  any p (x ∷ xs) = p x || any p xs

  abbrev pub all : (A → Bool) → List A → Bool
  all p [] = true
  all p (x ∷ xs) = p x && all p xs

  -- UPDATE ... SET f WHERE p
  abbrev pub update_rows : (A → Bool) → (A → A) → List A → List A
  update_rows p f [] = []
  update_rows p f (x ∷ xs) = (if p x then f x else x) ∷ update_rows p f xs

  -- A predicate by recursion computes to tuples, which the tactics read and build.
  abbrev pub All {κ} : (A → Type κ) → List A → Type κ
  All P [] = Unit
  All P (x ∷ xs) = P x × All P xs

  pub length-append : (xs ys : List A) → length (xs ++ ys) ≡ length xs + length ys
  length-append [] ys = omega arith
  length-append (x ∷ xs) ys = omega (arith, length-append xs ys)

  pub take-append-drop : (n : ℕ) (xs : List A) → take n xs ++ drop n xs ≡ xs
  take-append-drop zero xs = refl
  take-append-drop (suc n) [] = refl
  take-append-drop (suc n) (x ∷ xs) = ap (◌∷◌ x) (take-append-drop n xs)

  pub length-take-le : (n : ℕ) (xs : List A) → length (take n xs) ≤ n
  length-take-le zero xs = omega arith
  length-take-le (suc n) [] = omega arith
  length-take-le (suc n) (x ∷ xs) = omega (arith, length-take-le n xs)

-- Membership by recursion, for the tables of the model.
abbrev pub In : {A : Type 0} → A → List A → Type 0
In a [] = ⊥
In a (x ∷ xs) = (a ≡ x) ⊎ In a xs

module _ {A : Type 0} where
  pub All-In {κ} : (P : A → Type κ) (a : A) (xs : List A) → All P xs → In a xs → P a
  All-In P a [] h m = absurd m
  All-In P a (x ∷ xs) h (inl e) = subst P (sym e) h.0
  All-In P a (x ∷ xs) h (inr m) = All-In P a xs h.1 m

  pub find-some-In :
      (p : A → Bool) (a : A) (xs : List A) → find p xs ≡ some a → In a xs × (p a ≡ true)
  find-some-In p a [] h = absurd (ground arith)
  find-some-In p a (x ∷ xs) h = elim (Bool-cases (p x)) [
    | inl e ↦ (inl (ground arith), ground arith)
    | inr e ↦ let r = find-some-In p a xs (ground arith) in (inr r.0, r.1)
  ]

  pub All-find {κ} :
      (P : A → Type κ) (p : A → Bool) (a : A) (xs : List A) → All P xs → find p xs ≡ some a → P a
  All-find P p a xs h e = All-In P a xs h (find-some-In p a xs e).0

  pub find-none : (p : A → Bool) (a : A) (xs : List A) → find p xs ≡ none → In a xs → p a ≡ false
  find-none p a [] h m = absurd m
  find-none p a (x ∷ xs) h (inl e) = ground (arith)
  find-none p a (x ∷ xs) h (inr m) = find-none p a xs (ground arith) m

module _ {ℓ κ} {A : Type ℓ} (P : A → Type κ) where
  pub All-split : (xs ys : List A) → All P (xs ++ ys) → All P xs × All P ys
  All-split [] ys h = (tt, h)
  All-split (x ∷ xs) ys h = let (p, q) = All-split xs ys h.1 in ((h.0, p), q)

  pub All-append : (xs ys : List A) → All P xs → All P ys → All P (xs ++ ys)
  All-append [] ys hx hy = hy
  All-append (x ∷ xs) ys hx hy = (hx.0, All-append xs ys hx.1 hy)

swap_sides : {P Q R S : Type 0} → (R → P ⊎ S) → Q ⊎ R → P ⊎ (Q ⊎ S)
swap_sides f (inl q) = inr (inl q)
swap_sides f (inr r) = elim (f r) [ inl p ↦ inl p | inr s ↦ inr (inr s) ]

-- A stable insertion sort by a strict order: what ORDER BY and sorted() compute.
module _ {A : Type 0} (before : A → A → Bool) where
  abbrev pub insert_by : A → List A → List A
  insert_by a [] = a ∷ []
  insert_by a (x ∷ xs) = let later = x ∷ insert_by a xs in if before x a then later else a ∷ x ∷ xs

  abbrev pub sort_by : List A → List A
  sort_by [] = []
  sort_by (x ∷ xs) = insert_by x (sort_by xs)

  pub In-insert_by : (a b : A) (xs : List A) → In b (insert_by a xs) → (b ≡ a) ⊎ In b xs
  In-insert_by a b [] m = m
  In-insert_by a b (x ∷ xs) m = elim (Bool-cases (before x a)) [
    | inl e ↦ swap_sides (In-insert_by a b xs) (rw e at m)
    | inr e ↦ rw e at m
  ]

  pub In-sort_by : (b : A) (xs : List A) → In b (sort_by xs) → In b xs
  In-sort_by b [] m = m
  In-sort_by b (x ∷ xs) m = elim (In-insert_by x b (sort_by xs) m) [
    | inl e ↦ inl e
    | inr r ↦ inr (In-sort_by b xs r)
  ]

  pub insert_by_self : (a : A) (xs : List A) → In a (insert_by a xs)
  insert_by_self a [] = inl refl
  insert_by_self a (x ∷ xs) = elim (Bool-cases (before x a)) [
    | inl e ↦ rw e (inr (insert_by_self a xs))
    | inr e ↦ rw e (inl refl)
  ]

  pub insert_by-In : (a b : A) (xs : List A) → In b xs → In b (insert_by a xs)
  insert_by-In a b [] m = absurd m
  insert_by-In a b (x ∷ xs) m = elim (Bool-cases (before x a)) [
    | inl e ↦ rw e (elim m [ inl p ↦ inl p | inr p ↦ inr (insert_by-In a b xs p) ])
    | inr e ↦ rw e (inr m)
  ]

  pub sort_by-In : (b : A) (xs : List A) → In b xs → In b (sort_by xs)
  sort_by-In b [] m = m
  sort_by-In b (x ∷ xs) (inl e) = subst (λ z. In z (sort_by (x ∷ xs))) (sym e) (insert_by_self x _)
  sort_by-In b (x ∷ xs) (inr m) = insert_by-In x b (sort_by xs) (sort_by-In b xs m)

  -- The order never puts two elements each before the other, and is transitive when negated.
  pub record IsWeakOrder : Type 0 where
    pub asym : (a b : A) → before a b ≡ true → before b a ≡ false
    pub cotrans : (a b c : A) → before b a ≡ false → before c b ≡ false → before c a ≡ false

  abbrev pub IsSorted : List A → Type 0
  IsSorted [] = Unit
  IsSorted (x ∷ xs) = ((b : A) → In b xs → before b x ≡ false) × IsSorted xs

  pub insert_by-IsSorted :
      IsWeakOrder → (a : A) (xs : List A) → IsSorted xs → IsSorted (insert_by a xs)
  insert_by-IsSorted o a [] s = (λ b m. absurd m, tt)
  insert_by-IsSorted o a (x ∷ xs) s = elim (Bool-cases (before x a)) [
    | inl e ↦ rw e (
      λ b m. elim (In-insert_by a b xs m) [ inl p ↦ rw p (o.asym x a e) | inr p ↦ s.0 b p ],
      insert_by-IsSorted o a xs s.1,
    )
    | inr e ↦ rw e (λ b m. elim m [ inl p ↦ rw p e | inr p ↦ o.cotrans a x b e (s.0 b p) ], s)
  ]

  pub sort_by-IsSorted : IsWeakOrder → (xs : List A) → IsSorted (sort_by xs)
  sort_by-IsSorted o [] = tt
  sort_by-IsSorted o (x ∷ xs) = insert_by-IsSorted o x (sort_by xs) (sort_by-IsSorted o xs)

  length-insert_by : (a : A) (xs : List A) → length (insert_by a xs) ≡ suc (length xs)
  length-insert_by a [] = refl
  length-insert_by a (x ∷ xs) = elim (Bool-cases (before x a)) [
    | inl e ↦ rw (e, length-insert_by a xs)
    | inr e ↦ rw e
  ]

  pub length-sort_by : (xs : List A) → length (sort_by xs) ≡ length xs
  length-sort_by [] = refl
  length-sort_by (x ∷ xs) = rw (length-insert_by x (sort_by xs), length-sort_by xs)

module _ {A : Type 0} where
  pub length-keep : (p : A → Bool) (xs : List A) → length (keep p xs) ≤ length xs
  length-keep p [] = omega arith
  length-keep p (x ∷ xs) = ground (arith, length-keep p xs)

  pub take_all : (n : ℕ) (xs : List A) → length xs ≤ n → take n xs ≡ xs
  take_all zero [] h = refl
  take_all zero (x ∷ xs) h = absurd (omega (arith, h))
  take_all (suc n) [] h = refl
  take_all (suc n) (x ∷ xs) h = ap (◌∷◌ x) (take_all n xs (omega (arith, h)))
