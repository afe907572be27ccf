-- ===== src/Server/Identity/Filing.antt =====
-- Where the people of the roster file (src/stigmergy/server/identity.py).
use stigmergy.Prelude.{
  ◌≡◌, ◌≢◌, refl, sym, ap, subst, true, false, not, Option, none, some, ◌⊎◌, inl, inr, List, [],
  ◌∷◌, arith, In, In-keep, keep-In, All-In, Text, text_eq, elem, elem-In, In-elem, Bool-cases,
}
use stigmergy.Kernel.Layers.{public, is_layer_name, acl_of_layer}
use stigmergy.Server.Roster.{Person, Roster, brain_admins, as_principal}
use stigmergy.Server.Roster.Names.{layer_or_admins}
use stigmergy.Server.Roster.Valid.{IsOrderly, IsPersonValid, stands}
use stigmergy.Server.Identity.{
  Requested, omitted, a_string, listed, Filed, filed, bad_layer, publishable_layers, default_layer,
  stored_as, file_in, file_default, file_named, resolve_capture_layer,
}

-- the public audience, or that of one layer which the person belongs to and the tenant has
abbrev pub IsOwn : Roster → Person → Option (List Text) → Type 0
IsOwn r p acl =
    (acl ≡ none)
    ⊎ ((g : Text) × (acl ≡ some (g ∷ []))
        × In g p.groups
        × (is_layer_name g ≡ true)
        × (stands r.groups p.tenant_id g ≡ true))

module _ (r : Roster) (p : Person) (v : IsPersonValid r.groups p) where
  group_files :
      (g : Text)
      → In g p.groups
      → text_eq g brain_admins ≡ false
      → (acl : Option (List Text)) × (stored_as (acl_of_layer g) ≡ filed acl) × IsOwn r p acl
  unfolding acl_of_layer
  group_files g m n =
      let l : layer_or_admins g ≡ true = v.layered g m in
      let named : is_layer_name g ≡ true = ground arith in
      elim (Bool-cases (text_eq g public)) [
        | inl e ↦ (none, rw (e, acl_of_layer) refl, inl refl)
        | inr e ↦
            (some (g ∷ []), rw (e, acl_of_layer, named) refl, inr (g, refl, m, named, v.known g m))
      ]

  public_files :
      (acl : Option (List Text)) × (stored_as (acl_of_layer public) ≡ filed acl) × IsOwn r p acl
  unfolding acl_of_layer text_eq
  public_files = (none, refl, inl refl)

  -- A layer that the person may publish in.
  in_publishable :
      (g : Text)
      → elem g (publishable_layers (as_principal p)) ≡ true
      → (acl : Option (List Text)) × (stored_as (acl_of_layer g) ≡ filed acl) × IsOwn r p acl
  unfolding publishable_layers as_principal
  in_publishable g h = elim (elem-In g (publishable_layers (as_principal p)) h) [
    | inl e ↦
        subst
          (λ x.
            (acl : Option (List Text)) × (stored_as (acl_of_layer x) ≡ filed acl) × IsOwn r p acl)
          (sym e) public_files
    | inr m ↦ let (n, k) = In-keep _ g p.groups m in group_files g n (ground arith)
  ]

  -- an answer that files only in an own layer, and is no LayerError
  abbrev IsSafe : Filed → Type 0
  IsSafe f = ((acl : Option (List Text)) → f ≡ filed acl → IsOwn r p acl) × (f ≢ bad_layer)

  file_in-IsSafe : (g : Text) → IsSafe (file_in (as_principal p) g)
  unfolding file_in
  file_in-IsSafe g = elim (Bool-cases (elem g (publishable_layers (as_principal p)))) [
    | inr e ↦ rw (e, file_in) (λ acl h. absurd (cc h), λ h. absurd (cc h))
    | inl e ↦
        let (acl, s, own) = in_publishable g e in
        rw (e, file_in, s)
          (
            λ other h.
                subst (IsOwn r p) (ap (λ (f : Filed). elim f [ filed a ↦ a | _ ↦ acl ]) h) own,
            λ h. absurd (cc h),
          )
  ]

  named-IsSafe : (o : Option (List Text)) → IsSafe (file_named (as_principal p) o)
  named-IsSafe none = (λ acl h. absurd (cc h), λ h. absurd (cc h))
  named-IsSafe (some []) = (λ acl h. absurd (cc h), λ h. absurd (cc h))
  named-IsSafe (some (a ∷ [])) = file_in-IsSafe a
  named-IsSafe (some (a ∷ b ∷ rest)) = (λ acl h. absurd (cc h), λ h. absurd (cc h))

  default-IsSafe : (o : Option Text) → IsSafe (file_default (as_principal p) o)
  default-IsSafe none = (λ acl h. absurd (cc h), λ h. absurd (cc h))
  default-IsSafe (some a) = file_in-IsSafe a

  answer-IsSafe : (q : Requested) → IsSafe (resolve_capture_layer (as_principal p) q)
  unfolding resolve_capture_layer
  answer-IsSafe omitted = default-IsSafe _
  answer-IsSafe a_string = (λ acl h. absurd (cc h), λ h. absurd (cc h))
  answer-IsSafe (listed names) = named-IsSafe _

  default_there :
      (d : Text)
      → (d ≡ public) ⊎ (In d p.groups × (text_eq d brain_admins ≡ false))
      → elem d (publishable_layers (as_principal p)) ≡ true
  unfolding publishable_layers as_principal
  default_there d (inl e) = In-elem d (publishable_layers (as_principal p)) (inl e)
  default_there d (inr (m, n)) =
      In-elem d (publishable_layers (as_principal p))
        (inr (keep-In (λ g. not (text_eq g brain_admins)) d p.groups m (rw n refl)))

  files_by_default :
      (acl : Option (List Text)) × (resolve_capture_layer (as_principal p) omitted ≡ filed acl)
  unfolding resolve_capture_layer default_layer file_in as_principal
  files_by_default =
      let (d, e, own) = v.default_is_own in
      let there = default_there d own in
      let (acl, s, o) = in_publishable d there in (acl, rw (e, there, s) refl)

-- Whoever is in an orderly roster can always file: a capture that names no layer has one. And wherever
-- the capture of such a person is filed, with or without a layer named, that is the public layer or a
-- layer that the person belongs to and that its tenant has; no request makes the layer code fail.
pub resolve_capture_layer-IsOwn :
    (r : Roster) (p : Person)
    → IsOrderly r
    → In p r.people
    → ((acl : Option (List Text)) × (resolve_capture_layer (as_principal p) omitted ≡ filed acl))
      × ((q : Requested)
          → ((acl : Option (List Text))
              → resolve_capture_layer (as_principal p) q ≡ filed acl
              → IsOwn r p acl)
            × (resolve_capture_layer (as_principal p) q ≢ bad_layer))
resolve_capture_layer-IsOwn r p o m =
    let v : IsPersonValid r.groups p = All-In _ p r.people o.people m in
    (files_by_default r p v, answer-IsSafe r p v)
