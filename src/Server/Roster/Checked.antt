-- ===== src/Server/Roster/Checked.antt =====
-- What the checks of src/stigmergy/server/roster.py establish of the fields and groups they pass.
use stigmergy.Prelude.{
  ℕ, ◌≡◌, refl, sym, ap, subst, Bool, true, false, ◌&&◌, ◌||◌, not, Option, none, some, ◌⊎◌, inl,
  inr, List, arith, if◌then◌else◌, sort_by, Text, strip, text_eq, text_eq_iff, elem, elem-In, In,
  In-sort_by, all-In, Bool-cases,
}
use stigmergy.Kernel.Layers.{public}
use stigmergy.Server.Roster.{
  Kind, person, agent, Roster, Refusal, Outcome, ok, refused, unrecognised, brain_admins,
}
use stigmergy.Server.Roster.Names.{
  Form, Fields, has_group, groups_of, checked_names, layer_or_admins, checked_kind, kind_of,
  is_person, checked_default, checked_groups, validated, or_empty, text_before,
}

pub Outcome-ok : {A : Type 0} {a b : A} → ok a ≡ ok b → a ≡ b
Outcome-ok {a = a} h = ap (λ o. elim o [ ok x ↦ x | _ ↦ a ]) h

-- what `_validated` has seen of the fields that it gives
pub record AreChecked (r : Roster) (t : ℕ) (f : Fields) : Type 0 where
  pub admin_is_person : f.is_admin ≡ true → f.kind ≡ person
  pub admin_unrestricted : f.is_admin ≡ true → In brain_admins f.groups
  pub known : (g : Text) → In g f.groups → has_group r t g ≡ true
  pub layered : (g : Text) → In g f.groups → layer_or_admins g ≡ true
  pub default_is_own :
      (f.default_layer ≡ public)
      ⊎ (In f.default_layer f.groups × (text_eq f.default_layer brain_admins ≡ false))

-- a test that refuses was not met
pub test_passed :
    {A : Type 0} (why : Refusal) (b : Bool) (o : Outcome A) (a : A)
    → (if b then refused why else o) ≡ ok a
    → (b ≡ false) × (o ≡ ok a)
test_passed why true o a h = absurd (cc h)
test_passed why false o a h = (refl, h)

pub not-false : (b : Bool) → not b ≡ false → b ≡ true
not-false true h = refl
not-false false h = absurd (cc h)

module _ (t : ℕ) (r : Roster) where
  checked_names_known :
      (o : Option (List Text)) (groups : List Text)
      → checked_names t r o ≡ ok groups
      → (g : Text) → In g groups
      → (has_group r t g ≡ true) × (layer_or_admins g ≡ true)
  unfolding checked_names
  checked_names_known none groups h g m = absurd (cc h)
  checked_names_known (some names) groups h g m =
      let (a, h') = test_passed _ _ _ groups h in
      let (b, h'') = test_passed _ _ _ groups h' in
      let e : sort_by text_before names ≡ groups = Outcome-ok h'' in
      let n : In g names = In-sort_by text_before g names (subst (In g) (sym e) m) in
      (
        all-In (has_group r t) g names (not-false _ a) n,
        all-In layer_or_admins g names (not-false _ b) n,
      )

  pub groups_of-known :
      (values : List (Option Text)) (groups : List Text)
      → groups_of t r values ≡ ok groups
      → (g : Text) → In g groups
      → (has_group r t g ≡ true) × (layer_or_admins g ≡ true)
  unfolding groups_of
  groups_of-known values groups h = checked_names_known _ groups h

  person_only :
      (admin : Bool) (kind : Kind)
      → (admin && not (is_person kind)) ≡ false
      → admin ≡ true
      → kind ≡ person
  person_only admin person h a = refl
  person_only admin agent h a = absurd (ground arith)

  own_default :
      (layer : Text) (groups : List Text)
      → (not (text_eq layer public) && (text_eq layer brain_admins || not (elem layer groups)))
        ≡ false
      → (layer ≡ public) ⊎ (In layer groups × (text_eq layer brain_admins ≡ false))
  own_default layer groups h = elim (Bool-cases (text_eq layer public)) [
    | inl e ↦ inl ((text_eq_iff layer public).0 e)
    | inr e ↦ inr (elem-In layer groups (ground arith), ground arith)
  ]

  default_checked :
      (name : Text) (kind : Kind) (admin : Bool) (groups : List Text) (given : Option Text)
      (f : Fields)
      → (admin && not (is_person kind)) ≡ false
      → (admin && not (elem brain_admins groups)) ≡ false
      → ((g : Text) → In g groups → (has_group r t g ≡ true) × (layer_or_admins g ≡ true))
      → checked_default name kind admin groups given ≡ ok f
      → AreChecked r t f
  unfolding checked_default
  default_checked name kind admin groups none f p u k h = absurd (cc h)
  default_checked name kind admin groups (some given) f p u k h =
      let (d, e) = test_passed _ _ _ f h in
      subst (AreChecked r t) (Outcome-ok e) (record {
        admin_is_person = person_only admin kind p;
        admin_unrestricted = λ a. elem-In brain_admins groups (ground arith);
        known = λ g m. (k g m).0;
        layered = λ g m. (k g m).1;
        default_is_own = own_default (strip given) groups d;
      })

  groups_checked :
      (name : Text) (kind : Kind) (admin : Bool) (given : Option Text) (o : Outcome (List Text))
      (f : Fields)
      → (admin && not (is_person kind)) ≡ false
      → ((groups : List Text)
          → o ≡ ok groups
          → (g : Text) → In g groups
          → (has_group r t g ≡ true) × (layer_or_admins g ≡ true))
      → checked_groups name kind admin given o ≡ ok f
      → AreChecked r t f
  unfolding checked_groups
  groups_checked name kind admin given (refused why) f p k h = absurd (cc h)
  groups_checked name kind admin given unrecognised f p k h = absurd (cc h)
  groups_checked name kind admin given (ok groups) f p k h =
      let (u, h') = test_passed _ _ _ f h in
      default_checked name kind admin groups given f p u (k groups refl) h'

  kind_checked :
      (name : Text) (admin : Bool) (given : Option Text) (o : Outcome (List Text))
      (kind : Option Kind) (f : Fields)
      → ((groups : List Text)
          → o ≡ ok groups
          → (g : Text) → In g groups
          → (has_group r t g ≡ true) × (layer_or_admins g ≡ true))
      → checked_kind name admin given o kind ≡ ok f
      → AreChecked r t f
  unfolding checked_kind
  kind_checked name admin given o none f k h = absurd (cc h)
  kind_checked name admin given o (some kind) f k h =
      let (p, h') = test_passed _ _ _ f h in groups_checked name kind admin given o f p k h'

  pub validated-AreChecked :
      (form : Form) (f : Fields) → validated t r form ≡ ok f → AreChecked r t f
  unfolding validated
  validated-AreChecked form f h =
      let (e, h') = test_passed _ _ _ f h in
      kind_checked _ _ _ _ (kind_of form.kind) f (groups_of-known (or_empty form.groups)) h'
