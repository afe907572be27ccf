-- ===== src/Server/Roster/Kept.antt =====
-- The rules of the roster over whole runs of the operations of src/stigmergy/server/roster.py.
use stigmergy.Prelude.{
  ℕ, ◌≡◌, refl, sym, ap, ◌∙◌, subst, Bool, true, false, not, Option, none, some, inl, inr, List, [],
  ◌∷◌, ◌++◌, arith, ◌==◌, ==_iff, any, keep, Text, text_eq, text_eq_iff, elem, In-elem, In, In-keep,
  In-any, any-In, any-false, keep-In, All-In, All-of, All-append, All-update_In, In-append_left,
  any-update_rows, length, Bool-cases, &&-elim,
}
use stigmergy.Server.Roster.{
  Person, Group, Channel, Roster, Outcome, ok, refused, unrecognised, brain_admins,
}
use stigmergy.Server.Roster.Names.{or_empty, has_group, groups_of}
use stigmergy.Server.Roster.Groups.{
  is_only_public, checked_one, group_named, described, person_uses, channel_uses, channel_named,
  mapped, checked_audience,
}
use stigmergy.Server.Roster.Checked.{
  validated-AreChecked, groups_of-known, test_passed, Outcome-ok, not-false,
}
use stigmergy.Server.Roster.Effects.{
  Effect, inserted, rewritten, turned, removed, grouped, redescribed, ungrouped, first_mapped,
  remapped, unmapped, issued, retouched, forgotten, revisited,
}
use stigmergy.Server.Roster.Steps.{Course, run_keeps}
use stigmergy.Server.Roster.Valid.{
  stands, IsOneGroup, IsOrderly, group_iff, inserted_valid, rewritten_valid, turned_valid,
  removed_valid, regrouped_valid, channels_valid,
}

stands_snoc :
    (gs : List Group) (row : Group) (t : ℕ) (g : Text)
    → stands gs t g ≡ true
    → stands (gs ++ row ∷ []) t g ≡ true
stands_snoc gs row t g h =
    let (a, m, e) = any-In (group_named t g) gs h in
    In-any (group_named t g) a (gs ++ row ∷ []) (In-append_left a gs _ m) e

-- a group of another name, or of another tenant, outlives the removal
stands-keep :
    (gs : List Group) (t u : ℕ) (name g : Text)
    → ((u ≡ t) → (g ≡ name) → ⊥)
    → stands gs u g ≡ true
    → stands (keep (λ row. not (group_named t name row)) gs) u g ≡ true
stands-keep gs t u name g other h =
    let (a, m, e) = any-In (group_named u g) gs h in
    let (p, q) = (group_iff u g a).0 e in
    let apart : group_named t name a ≡ false = elim (Bool-cases (group_named t name a)) [
      | inr f ↦ f
      | inl f ↦ let (p', q') = (group_iff t name a).0 f in absurd (other (sym p ∙ p') (sym q ∙ q'))
    ] in
    In-any (group_named u g) a _ (keep-In _ a gs m (rw apart)) e

module _ (r : Roster) (t : ℕ) (name : Text) where
  person_elsewhere :
      any (person_uses t name) r.people ≡ false
      → (p : Person) (g : Text) → In p r.people
      → In g p.groups
      → p.tenant_id ≡ t
      → g ≡ name
      → ⊥
  person_elsewhere h p g m n e q =
      let unused : person_uses t name p ≡ false =
        All-In _ p r.people (any-false (person_uses t name) r.people h) m in
      let uses : elem name p.groups ≡ true =
        In-elem name p.groups (subst (λ x. In x p.groups) q n) in
      let at_home : (t == p.tenant_id) ≡ true = (==_iff t p.tenant_id).1 (sym e) in
      let used : person_uses t name p ≡ true = rw (at_home, uses) refl in absurd (cc (unused, used))

  channel_elsewhere :
      any (channel_uses t name) r.channels ≡ false
      → (c : Channel) (a : List Text) (g : Text) → In c r.channels
      → c.groups ≡ some a
      → In g a
      → c.tenant_id ≡ t
      → g ≡ name
      → ⊥
  channel_elsewhere h c a g m e n q l =
      let unused : channel_uses t name c ≡ false =
        All-In _ c r.channels (any-false (channel_uses t name) r.channels h) m in
      let uses : elem name a ≡ true = In-elem name a (subst (λ x. In x a) l n) in
      let at_home : (t == c.tenant_id) ≡ true = (==_iff t c.tenant_id).1 (sym q) in
      let used : channel_uses t name c ≡ true = rw (at_home, e, uses) refl in
      absurd (cc (unused, used))

single : (xs : List Text) → length xs ≡ 1 → (g : Text) × (xs ≡ g ∷ [])
single [] h = absurd (omega (arith, h))
single (g ∷ []) h = (g, refl)
single (g ∷ f ∷ xs) h = absurd (omega (arith, h))

some_is_not_none : {A : Type 0} {x : A} → none ≡ some x → ⊥
some_is_not_none q = cc q

module _ (t : ℕ) (r : Roster) where
  audience_IsOneGroup :
      (o : Outcome (List Text)) (a : List Text)
      → ((groups : List Text) → o ≡ ok groups → (g : Text) → In g groups → has_group r t g ≡ true)
      → checked_one o ≡ ok (some a)
      → IsOneGroup r.groups t a
  unfolding checked_one
  audience_IsOneGroup (refused why) a k h = absurd (cc h)
  audience_IsOneGroup unrecognised a k h = absurd (cc h)
  audience_IsOneGroup (ok groups) a k h =
      let (b, h') = test_passed _ _ _ (some a) h in
      let (c, h'') = test_passed _ _ _ (some a) h' in
      let e : groups ≡ a = ap (or_empty {A = Text}) (Outcome-ok h'') in
      let (g, q) = single groups ((==_iff (length groups) 1).0 (not-false _ b)) in
      let m : In g groups = subst (In g) (sym q) (inl refl) in
      record {
        group = g;
        alone = sym e ∙ q;
        there = k groups refl g m;
        restricted = elim (Bool-cases (text_eq g brain_admins)) [
          | inr f ↦ f
          | inl f ↦ absurd (
              cc (
                c,
                In-elem brain_admins groups
                    (subst (λ x. In x groups) ((text_eq_iff g brain_admins).0 f) m),
              ))
        ];
      }

  checked_audience-IsOneGroup :
      (given : Option (List (Option Text))) (a : List Text)
      → checked_audience t r given ≡ ok (some a)
      → IsOneGroup r.groups t a
  unfolding checked_audience
  checked_audience-IsOneGroup none a h = absurd (some_is_not_none (Outcome-ok h))
  checked_audience-IsOneGroup (some given) a h = elim (Bool-cases (is_only_public given)) [
    | inl e ↦ absurd (some_is_not_none (Outcome-ok (rw (e, checked_audience) at h)))
    | inr e ↦
        audience_IsOneGroup (groups_of t r given) a
          (λ gs e g m. (groups_of-known t r given gs e g m).0) (rw (e, checked_audience) at h)
  ]

channel_tenant : (t : ℕ) (id : Text) (c : Channel) → channel_named t id c ≡ true → t ≡ c.tenant_id
channel_tenant t id c h =
    (==_iff t c.tenant_id).0 (&&-elim (t == c.tenant_id) (text_eq c.channel_id id) h).0

module _ (issuable : ℕ → Bool) where
  pub Effect-IsOrderly : (r end : Roster) → Effect issuable r end → IsOrderly r → IsOrderly end
  Effect-IsOrderly r end (inserted t now actor s form values e h) v =
      inserted_valid r v t now actor s values (validated-AreChecked t r form values e) h
  Effect-IsOrderly r end (rewritten t now actor s stored form values f e g) v =
      rewritten_valid r v t now actor s values (validated-AreChecked t r form values e)
  Effect-IsOrderly r end (turned t now actor s disabled stored f g) v =
      turned_valid r v t now actor s disabled
  Effect-IsOrderly r end (removed t s stored f g) v = removed_valid r v _
  Effect-IsOrderly r end (grouped row) v =
      regrouped_valid r v _ (λ p g m n. stands_snoc r.groups row p.tenant_id g)
        (λ c a g m e n. stands_snoc r.groups row c.tenant_id g)
  Effect-IsOrderly r end (redescribed t name line) v =
      regrouped_valid r v _
        (λ p g m n h.
          any-update_rows (group_named p.tenant_id g) (group_named t name) (described line)
            (λ a. refl) r.groups
          ∙ h)
        (λ c a g m e n h.
          any-update_rows (group_named c.tenant_id g) (group_named t name) (described line)
            (λ a. refl) r.groups
          ∙ h)
  Effect-IsOrderly r end (ungrouped t name b p c) v =
      regrouped_valid r v _
        (λ q g m n. stands-keep r.groups t q.tenant_id name g (person_elsewhere r t name p q g m n))
        (λ q a g m e n.
          stands-keep r.groups t q.tenant_id name g (channel_elsewhere r t name c q a g m e n))
  Effect-IsOrderly r end (first_mapped t now actor id given audience e) v = channels_valid r v _ (
      All-append _ r.channels _ v.channels
        (λ a q. checked_audience-IsOneGroup t r given a (e ∙ ap ok q), tt))
  Effect-IsOrderly r end (remapped t now actor id given audience e) v = channels_valid r v _ (
      All-update_In _ (channel_named t id) (mapped audience now actor) r.channels
        (λ c m w h a q.
          subst (λ u. IsOneGroup r.groups u a) (channel_tenant t id c h)
            (checked_audience-IsOneGroup t r given a (e ∙ ap ok q)))
        v.channels)
  Effect-IsOrderly r end (unmapped p) v = channels_valid r v _ (
      All-of _ (keep p r.channels)
        (λ c m. All-In _ c r.channels v.channels (In-keep p c r.channels m).0))
  Effect-IsOrderly r end (issued row i) v = record {
    people = v.people;
    keys = v.keys;
    channels = v.channels;
  }
  Effect-IsOrderly r end (retouched p f s) v = record {
    people = v.people;
    keys = v.keys;
    channels = v.channels;
  }
  Effect-IsOrderly r end (forgotten p) v = record {
    people = v.people;
    keys = v.keys;
    channels = v.channels;
  }
  Effect-IsOrderly r end (revisited visits) v = record {
    people = v.people;
    keys = v.keys;
    channels = v.channels;
  }

  -- Whatever operations run, on connections of any tenants and in any order, from an orderly roster: every
  -- administrator is a person who reads everything, every person belongs only to groups of its tenant,
  -- layers or the unrestricted one, and files by default in `public` or in one of its own layers, a
  -- mapped channel files in `public` or in one group of its tenant that is not the unrestricted one, and
  -- no subject stands twice.
  pub Course-IsOrderly :
      (lower upper digest : Text → Text) {r end : Roster}
      → Course issuable lower upper digest r end
      → IsOrderly r
      → IsOrderly end
  Course-IsOrderly lower upper digest run v =
      run_keeps issuable lower upper digest IsOrderly Effect-IsOrderly run v
