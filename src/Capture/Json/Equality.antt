-- ===== src/Capture/Json/Equality.antt =====
-- Comparing JSON values with no repeated key.
use stigmergy.Prelude.{
  String, ◌≡◌, ◌≢◌, ◌&&◌, ◌∙◌, ◌⊎◌, Bool, Option, refl, true, false, none, some, arith, ◌==◌,
  ==_refl, str_eq, eq_iff, eq_refl, Bool-cases, inl, inr, subst, &&-intro,
}
use stigmergy.Capture.Json.{
  Value, null, flag, num, str, array, obj, Items, no_items, item, Fields, end, field, get, pop, put,
  size, value_eq, items_eq, fields_in, dict_eq,
}

-- No object inside holds a key twice.
unfoldable mutual
  pub IsClean : Value → Type 0
  IsClean null = Unit
  IsClean (flag b) = Unit
  IsClean (num n) = Unit
  IsClean (str s) = Unit
  IsClean (array xs) = IsCleanItems xs
  IsClean (obj fs) = IsCleanFields fs

  pub IsCleanItems : Items → Type 0
  IsCleanItems no_items = Unit
  IsCleanItems (item x xs) = IsClean x × IsCleanItems xs

  pub IsCleanFields : Fields → Type 0
  IsCleanFields end = Unit
  IsCleanFields (field k v fs) = (get k fs ≡ none) × IsClean v × IsCleanFields fs

-- Every entry of `fs` is found in `gs`.
abbrev Covers : Fields → Fields → Type 0
Covers end gs = Unit
Covers (field k v fs) gs = (get k gs ≡ some v) × Covers fs gs

Covers-field :
    (fs gs : Fields) (k : String) (v : Value)
    → get k fs ≡ none
    → Covers fs gs
    → Covers fs (field k v gs)
Covers-field end gs k v absent c = tt
Covers-field (field j w fs) gs k v absent c = (
  ground (arith, eq_iff j k, eq_iff k j, c.0),
  Covers-field fs gs k v (ground (arith, absent)) c.1,
)

Covers-self : (fs : Fields) → IsCleanFields fs → Covers fs fs
unfolding IsClean
Covers-self end c = tt
Covers-self (field k v fs) c = (rw eq_refl, Covers-field fs fs k v c.0 (Covers-self fs c.2))

mutual
  unfolding value_eq IsClean

  value_eq_self : (v : Value) → IsClean v → value_eq v v ≡ true
  value_eq_self null c = refl
  value_eq_self (flag true) c = refl
  value_eq_self (flag false) c = refl
  value_eq_self (num n) c = ==_refl n
  value_eq_self (str s) c = eq_refl s
  value_eq_self (array xs) c = items_eq_self xs c
  value_eq_self (obj fs) c =
      &&-intro (size fs == size fs) (fields_in fs fs) (==_refl (size fs))
        (fields_in_covered fs fs c (Covers-self fs c))

  items_eq_self : (xs : Items) → IsCleanItems xs → items_eq xs xs ≡ true
  items_eq_self no_items c = refl
  items_eq_self (item x xs) c =
      &&-intro (value_eq x x) (items_eq xs xs) (value_eq_self x c.0) (items_eq_self xs c.1)

  fields_in_covered : (fs gs : Fields) → IsCleanFields fs → Covers fs gs → fields_in fs gs ≡ true
  fields_in_covered end gs c h = refl
  fields_in_covered (field k v fs) gs c h = rw h.0 (
      &&-intro (value_eq v v) (fields_in fs gs) (value_eq_self v c.1)
        (fields_in_covered fs gs c.2 h.1))

pub dict_eq_self : (fs : Fields) → IsCleanFields fs → dict_eq fs fs ≡ true
unfolding dict_eq
dict_eq_self fs c =
    &&-intro (size fs == size fs) (fields_in fs fs) (==_refl (size fs))
      (fields_in_covered fs fs c (Covers-self fs c))

get-pop-none : (k j : String) (fs : Fields) → get k fs ≡ none → get k (pop j fs) ≡ none
get-pop-none k j end h = refl
get-pop-none k j (field i v fs) h = ground (arith, get-pop-none k j fs)

pub pop-IsCleanFields : (k : String) (fs : Fields) → IsCleanFields fs → IsCleanFields (pop k fs)
unfolding IsClean
pop-IsCleanFields k end c = tt
pop-IsCleanFields k (field j v fs) c = elim (Bool-cases (str_eq j k)) [
  | inl e ↦ rw e (pop-IsCleanFields k fs c.2)
  | inr e ↦ rw e (get-pop-none j k fs c.0, c.1, pop-IsCleanFields k fs c.2)
]

pub get-pop_self : (k : String) (fs : Fields) → get k (pop k fs) ≡ none
get-pop_self k end = refl
get-pop_self k (field j v fs) = ground (arith, get-pop_self k fs)

pub put-IsCleanFields :
    (k : String) (v : Value) (fs : Fields)
    → IsClean v
    → IsCleanFields fs
    → IsCleanFields (put k v fs)
unfolding IsClean
put-IsCleanFields k v fs cv c = (get-pop_self k fs, cv, pop-IsCleanFields k fs c)

pub get-IsClean :
    (k : String) (v : Value) (fs : Fields) → IsCleanFields fs → get k fs ≡ some v → IsClean v
unfolding IsClean
get-IsClean k v end c h = absurd (ground arith)
get-IsClean k v (field j w fs) c h = elim (Bool-cases (str_eq j k)) [
  | inl e ↦ subst IsClean (cc (rw e at h)) c.1
  | inr e ↦ get-IsClean k v fs c.2 (rw e at h)
]

pub pop-pop : (k : String) (fs : Fields) → pop k (pop k fs) ≡ pop k fs
pop-pop k end = refl
pop-pop k (field j v fs) = ground (arith, pop-pop k fs)

pub pop_comm : (k j : String) (fs : Fields) → pop k (pop j fs) ≡ pop j (pop k fs)
pop_comm k j end = refl
pop_comm k j (field i v fs) = ground (arith, pop_comm k j fs)

pub get-pop_other : (k j : String) (fs : Fields) → k ≢ j → get k (pop j fs) ≡ get k fs
get-pop_other k j end ne = refl
get-pop_other k j (field i v fs) ne =
    ground (arith, get-pop_other k j fs ne, eq_iff i j, eq_iff i k)

-- What the second object must hold at a key of the first for the two to differ there.
abbrev pub IsOther : Value → Option Value → Type 0
IsOther v none = Unit
IsOther v (some w) = value_eq v w ≡ false

abbrev inside : Value → Option Value → Bool
inside v none = false
inside v (some w) = value_eq v w

IsOther-inside : (v : Value) (o : Option Value) → IsOther v o → inside v o ≡ false
IsOther-inside v none d = refl
IsOther-inside v (some w) d = d

fields_in-field :
    (j : String) (w : Value) (fs gs : Fields)
    → fields_in (field j w fs) gs ≡ (inside w (get j gs) && fields_in fs gs)
unfolding fields_in value_eq
fields_in-field j w fs gs = refl

get-field-cases :
    (k j : String) (v w : Value) (fs : Fields)
    → get k (field j w fs) ≡ some v
    → ((j ≡ k) × (w ≡ v)) ⊎ (get k fs ≡ some v)
get-field-cases k j v w fs h = elim (Bool-cases (str_eq j k)) [
  | inl e ↦ inl ((eq_iff j k).0 e, cc (rw e at h))
  | inr e ↦ inr (rw e at h)
]

fields_in_other :
    (k : String) (v : Value) (fs gs : Fields)
    → get k fs ≡ some v
    → IsOther v (get k gs)
    → fields_in fs gs ≡ false
fields_in_other k v end gs h d = absurd (ground arith)
fields_in_other k v (field j w fs) gs h d =
    fields_in-field j w fs gs ∙ elim (get-field-cases k j v w fs h) [
      | inl (e, f) ↦ rw (e, f) (rw (IsOther-inside v (get k gs) d) refl)
      | inr rest ↦ ground (arith, fields_in_other k v fs gs rest d)
    ]

-- Two objects that differ at a key are not equal.
pub dict_eq_other :
    (k : String) (v : Value) (fs gs : Fields)
    → get k fs ≡ some v
    → IsOther v (get k gs)
    → dict_eq fs gs ≡ false
unfolding dict_eq
dict_eq_other k v fs gs h d = ground (arith, fields_in_other k v fs gs h d)
