-- ===== src/Prelude/Rows.antt =====
-- Tables as lists of rows: updates, selections, and keys on which no two rows agree.
use Prim.Native.Nat.{ℕ, zero, suc}
use mathlib.Core.Path.{◌≡◌, refl, sym, ap, ◌∙◌}
use mathlib.Core.Logic.{◌≢◌, ◌⊎◌, inl, inr}
use mathlib.Core.Bool.{Bool, true, false, ◌||◌}
use mathlib.Core.List.{List, [], ◌∷◌, ◌++◌, map}
use mathlib.Core.Option.{Option, none, some}
use mathlib.Core.Option
use native.Mathlib.Omega.{arith}
use stigmergy.Prelude.Tests.{if◌then◌else◌, Bool-cases}
use stigmergy.Prelude.Lists.{All, all, In, All-In, keep, take, any, find, update_rows}

module _ {A : Type 0} where
  pub All-update_In {κ} :
      (P : A → Type κ) (p : A → Bool) (f : A → A) (xs : List A)
      → ((a : A) → In a xs → P a → p a ≡ true → P (f a))
      → All P xs
      → All P (update_rows p f xs)
  All-update_In P p f [] step h = tt
  All-update_In P p f (x ∷ xs) step h =
      let rest = All-update_In P p f xs (λ a m. step a (inr m)) h.1 in
      elim (Bool-cases (p x)) [
        | inl e ↦ rw e (step x (inl refl) h.0 e, rest)
        | inr e ↦ rw e (h.0, rest)
      ]

  pub update_rows-All {κ} :
      (P : A → Type κ) (p : A → Bool) (f : A → A) (xs : List A)
      → ((a : A) → In a xs → P (if p a then f a else a))
      → All P (update_rows p f xs)
  update_rows-All P p f [] h = tt
  update_rows-All P p f (x ∷ xs) h = (h x (inl refl), update_rows-All P p f xs (λ a m. h a (inr m)))

  pub In-keep : (p : A → Bool) (a : A) (xs : List A) → In a (keep p xs) → In a xs × (p a ≡ true)
  In-keep p a [] m = absurd m
  In-keep p a (x ∷ xs) m = elim (Bool-cases (p x)) [
    | inl e ↦ elim (rw e at m) [
      | inl q ↦ (inl q, ap p q ∙ e)
      | inr q ↦ let r = In-keep p a xs q in (inr r.0, r.1)
    ]
    | inr e ↦ let r = In-keep p a xs (rw e at m) in (inr r.0, r.1)
  ]

  pub keep-In : (p : A → Bool) (a : A) (xs : List A) → In a xs → p a ≡ true → In a (keep p xs)
  keep-In p a [] m h = absurd m
  keep-In p a (x ∷ xs) (inl q) h = rw (sym (ap p q) ∙ h) (inl q)
  keep-In p a (x ∷ xs) (inr m) h = elim (Bool-cases (p x)) [
    | inl e ↦ rw e (inr (keep-In p a xs m h))
    | inr e ↦ rw e (keep-In p a xs m h)
  ]

  pub In-take : (n : ℕ) (a : A) (xs : List A) → In a (take n xs) → In a xs
  In-take zero a xs m = absurd m
  In-take (suc n) a [] m = absurd m
  In-take (suc n) a (x ∷ xs) (inl q) = inl q
  In-take (suc n) a (x ∷ xs) (inr m) = inr (In-take n a xs m)

  pub any-In : (p : A → Bool) (xs : List A) → any p xs ≡ true → (a : A) × In a xs × (p a ≡ true)
  any-In p [] h = absurd (ground arith)
  any-In p (x ∷ xs) h = elim (Bool-cases (p x)) [
    | inl e ↦ (x, inl refl, e)
    | inr e ↦ let r = any-In p xs (ground arith) in (r.0, inr r.1, r.2)
  ]

  pub any-false : (p : A → Bool) (xs : List A) → any p xs ≡ false → All (λ a. p a ≡ false) xs
  any-false p [] h = tt
  any-false p (x ∷ xs) h = elim (Bool-cases (p x)) [
    | inl e ↦ absurd (ground arith)
    | inr e ↦ (e, any-false p xs (ground arith))
  ]

  pub All-imp {κ μ} :
      (P : A → Type κ) (Q : A → Type μ) (xs : List A) → ((a : A) → P a → Q a) → All P xs → All Q xs
  All-imp P Q [] f h = tt
  All-imp P Q (x ∷ xs) f h = (f x h.0, All-imp P Q xs f h.1)

  -- an update outside its condition changes nothing
  pub update_rows_none :
      (p : A → Bool) (f : A → A) (xs : List A) → All (λ a. p a ≡ false) xs → update_rows p f xs ≡ xs
  update_rows_none p f [] h = refl
  update_rows_none p f (x ∷ xs) h = rw h.0 (ap (◌∷◌ x) (update_rows_none p f xs h.1))

  -- A row that a SELECT does not find is in no row that it tests.
  pub find-none-All : (p : A → Bool) (xs : List A) → find p xs ≡ none → All (λ a. p a ≡ false) xs
  find-none-All p [] h = tt
  find-none-All p (x ∷ xs) h = elim (Bool-cases (p x)) [
    | inl e ↦ absurd (ground arith)
    | inr e ↦ (e, find-none-All p xs (ground arith))
  ]

module _ {A : Type 0} (q p : A → Bool) (f : A → A) (same : (r : A) → q (f r) ≡ q r) where
  -- A search by what the update leaves alone finds the row that it found before, updated.
  pub find-update_rows :
      (xs : List A)
      → find q (update_rows p f xs) ≡ Option.map (λ r. if p r then f r else r) (find q xs)
  find-update_rows [] = refl
  find-update_rows (x ∷ xs) =
      let rest = find-update_rows xs in
      elim (Bool-cases (p x)) [
        | inl e ↦ elim (Bool-cases (q x)) [
          | inl h ↦ rw (e, same x, h, e)
          | inr h ↦ rw (e, same x, h) rest
        ]
        | inr e ↦ elim (Bool-cases (q x)) [ inl h ↦ rw (e, h, e) | inr h ↦ rw (e, h) rest ]
      ]

  pub any-update_rows : (xs : List A) → any q (update_rows p f xs) ≡ any q xs
  any-update_rows [] = refl
  any-update_rows (x ∷ xs) =
      let rest = any-update_rows xs in
      elim (Bool-cases (p x)) [
        | inl e ↦ rw (e, same x) (ap (◌||◌ (q x)) rest)
        | inr e ↦ rw e (ap (◌||◌ (q x)) rest)
      ]

module _ {A K : Type 0} (key : A → K) where
  abbrev pub AllDistinct : List A → Type 0
  AllDistinct [] = Unit
  AllDistinct (x ∷ xs) = All (λ y. key y ≢ key x) xs × AllDistinct xs

  pub AllDistinct-update_rows :
      (p : A → Bool) (f : A → A) (xs : List A)
      → ((a : A) → key (f a) ≡ key a)
      → AllDistinct xs
      → AllDistinct (update_rows p f xs)
  AllDistinct-update_rows p f [] same h = tt
  AllDistinct-update_rows p f (x ∷ xs) same h = (
    All-update_In _ p f xs (λ a _ ne _ e. ne (sym (same a) ∙ e))
        (All-imp _ _ xs (λ a ne e. ne (e ∙ moved)) h.0),
    AllDistinct-update_rows p f xs same h.1,
  )
    where
      moved : key (if p x then f x else x) ≡ key x
      moved = elim (Bool-cases (p x)) [ inl e ↦ rw e (same x) | inr e ↦ rw e ]

  pub AllDistinct-snoc :
      (xs : List A) (y : A)
      → All (λ x. key x ≢ key y) xs
      → AllDistinct xs
      → AllDistinct (xs ++ y ∷ [])
  AllDistinct-snoc [] y h d = (tt, tt)
  AllDistinct-snoc (x ∷ xs) y h d = (snoc_All xs d.0, AllDistinct-snoc xs y h.1 d.1)
    where
      snoc_All :
          (zs : List A) → All (λ z. key z ≢ key x) zs → All (λ z. key z ≢ key x) (zs ++ y ∷ [])
      snoc_All [] g = (λ e. h.0 (sym e), tt)
      snoc_All (z ∷ zs) g = (g.0, snoc_All zs g.1)

  pub AllDistinct-keep : (p : A → Bool) (xs : List A) → AllDistinct xs → AllDistinct (keep p xs)
  AllDistinct-keep p [] h = tt
  AllDistinct-keep p (x ∷ xs) h = elim (Bool-cases (p x)) [
    | inl e ↦ rw e (All-keep xs h.0, AllDistinct-keep p xs h.1)
    | inr e ↦ rw e (AllDistinct-keep p xs h.1)
  ]
    where
      All-keep : (ys : List A) → All (λ y. key y ≢ key x) ys → All (λ y. key y ≢ key x) (keep p ys)
      All-keep [] g = tt
      All-keep (y ∷ ys) g = elim (Bool-cases (p y)) [
        | inl e ↦ rw e (g.0, All-keep ys g.1)
        | inr e ↦ rw e (All-keep ys g.1)
      ]

  -- Two rows of the table with one key are one row.
  pub AllDistinct-eq :
      (xs : List A) (a b : A) → AllDistinct xs → In a xs → In b xs → key a ≡ key b → a ≡ b
  AllDistinct-eq [] a b d m n e = absurd m
  AllDistinct-eq (x ∷ xs) a b d (inl p) (inl q) e = p ∙ sym q
  AllDistinct-eq (x ∷ xs) a b d (inl p) (inr n) e = absurd (All-In _ b xs d.0 n (sym e ∙ ap key p))
  AllDistinct-eq (x ∷ xs) a b d (inr m) (inl q) e = absurd (All-In _ a xs d.0 m (e ∙ ap key q))
  AllDistinct-eq (x ∷ xs) a b d (inr m) (inr n) e = AllDistinct-eq xs a b d.1 m n e

module _ {A : Type 0} where
  pub In-any : (p : A → Bool) (a : A) (xs : List A) → In a xs → p a ≡ true → any p xs ≡ true
  In-any p a [] m h = absurd m
  In-any p a (x ∷ xs) (inl e) h = rw (sym (ap p e) ∙ h)
  In-any p a (x ∷ xs) (inr m) h = ground (arith, In-any p a xs m h)

  pub all-In : (p : A → Bool) (a : A) (xs : List A) → all p xs ≡ true → In a xs → p a ≡ true
  all-In p a [] h m = absurd m
  all-In p a (x ∷ xs) h (inl e) = ap p e ∙ ground arith
  all-In p a (x ∷ xs) h (inr m) = all-In p a xs (ground arith) m

  -- A test that fails on some element.
  pub all_fails :
      (p : A → Bool) (xs : List A) → all p xs ≡ false → (a : A) × In a xs × (p a ≡ false)
  all_fails p [] h = absurd (ground arith)
  all_fails p (x ∷ xs) h = elim (Bool-cases (p x)) [
    | inl e ↦ let r = all_fails p xs (ground arith) in (r.0, inr r.1, r.2)
    | inr e ↦ (x, inl refl, e)
  ]

module _ {A B : Type 0} (f : A → B) where
  pub In-map : (b : B) (xs : List A) → In b (map f xs) → (a : A) × In a xs × (b ≡ f a)
  In-map b [] m = absurd m
  In-map b (x ∷ xs) (inl e) = (x, inl refl, e)
  In-map b (x ∷ xs) (inr m) = let r = In-map b xs m in (r.0, inr r.1, r.2)

  pub map-In : (a : A) (xs : List A) → In a xs → In (f a) (map f xs)
  map-In a [] m = absurd m
  map-In a (x ∷ xs) (inl e) = inl (ap f e)
  map-In a (x ∷ xs) (inr m) = inr (map-In a xs m)

module _ {A : Type 0} where
  pub All-of {κ} : (P : A → Type κ) (xs : List A) → ((a : A) → In a xs → P a) → All P xs
  All-of P [] f = tt
  All-of P (x ∷ xs) f = (f x (inl refl), All-of P xs (λ a m. f a (inr m)))

  pub In-append_left : (a : A) (xs ys : List A) → In a xs → In a (xs ++ ys)
  In-append_left a [] ys m = absurd m
  In-append_left a (x ∷ xs) ys (inl e) = inl e
  In-append_left a (x ∷ xs) ys (inr m) = inr (In-append_left a xs ys m)

  pub In-append_right : (a : A) (xs ys : List A) → In a ys → In a (xs ++ ys)
  In-append_right a [] ys m = m
  In-append_right a (x ∷ xs) ys m = inr (In-append_right a xs ys m)

  pub List-cases : (xs : List A) → (xs ≡ []) ⊎ ((y : A) × (ys : List A) × (xs ≡ y ∷ ys))
  List-cases [] = inl refl
  List-cases (y ∷ ys) = inr (y, ys, refl)
