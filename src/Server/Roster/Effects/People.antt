-- ===== src/Server/Roster/Effects/People.antt =====
-- The effects of administering people.
use stigmergy.Prelude.{
  ℕ, ◌≡◌, refl, Bool, ◌&&◌, not, some, inl, inr, ◌==◌, any, find, Text, Bool-cases, Option-cases,
}
use stigmergy.Server.Roster.{Person, Roster, Outcome, ok, refused, unrecognised, named, admins_left}
use stigmergy.Server.Roster.Effects.{
  Effects, nothing, and_then, one, inserted, rewritten, turned, removed, forgotten, revisited,
}
use stigmergy.Server.Roster.Names.{Form, Fields, validated}
use stigmergy.Server.Roster.People.{
  then_read, insert_person, create_checked, create_principal, write_fields, overlay, update_checked,
  update_principal, switch, is_last, set_disabled_checked, set_disabled, remove_person,
  delete_checked, delete_principal,
}

module _ (issuable : ℕ → Bool) (lower : Text → Text) (t now : ℕ) (actor : Text) where
  read_Effects :
      (r : Roster) (o : Outcome Text × Roster)
      → Effects issuable r o.1
      → Effects issuable r (then_read lower t o).1
  unfolding then_read
  read_Effects r (ok s, left) h = h
  read_Effects r (refused why, left) h = h
  read_Effects r (unrecognised, left) h = h

  pub insert_Effects :
      (form : Form) (r : Roster) (subject : Text) (o : Outcome Fields)
      → validated t r form ≡ o
      → Effects issuable r (insert_person t now actor subject r o).1
  unfolding insert_person
  insert_Effects form r subject (refused why) e = nothing
  insert_Effects form r subject unrecognised e = nothing
  insert_Effects form r subject (ok values) e = elim (Bool-cases (any (named t subject) r.people)) [
    | inl h ↦ rw h nothing
    | inr h ↦ rw h (one issuable (inserted t now actor subject form values e h))
  ]

  create_Effects :
      (form : Form) (r : Roster) (o : Outcome Text)
      → Effects issuable r (create_checked t now actor form r o).1
  unfolding create_checked
  create_Effects form r (refused why) = nothing
  create_Effects form r unrecognised = nothing
  create_Effects form r (ok subject) = insert_Effects form r subject (validated t r form) refl

  pub create_principal-Effects :
      (subject : Text) (form : Form) (r : Roster)
      → Effects issuable r (create_principal lower t now actor subject form r).1
  unfolding create_principal
  create_principal-Effects subject form r = read_Effects r _ (create_Effects form r _)

  write_Effects :
      (form : Form) (r : Roster) (subject : Text) (stored : Person) (o : Outcome Fields)
      → find (named t subject) r.people ≡ some stored
      → validated t r form ≡ o
      → Effects issuable r (write_fields t now actor subject stored r o).1
  unfolding write_fields
  write_Effects form r subject stored (refused why) f e = nothing
  write_Effects form r subject stored unrecognised f e = nothing
  write_Effects form r subject stored (ok values) f e =
      elim (Bool-cases
        ((stored.is_admin && not values.is_admin) && (admins_left t subject r == 0))) [
          | inl h ↦ rw h nothing
          | inr h ↦ rw h (one issuable (rewritten t now actor subject stored form values f e h))
        ]

  update_Effects :
      (form : Form) (r : Roster) (o : Outcome Text)
      → Effects issuable r (update_checked t now actor form r o).1
  unfolding update_checked
  update_Effects form r (refused why) = nothing
  update_Effects form r unrecognised = nothing
  update_Effects form r (ok subject) = elim (Option-cases (find (named t subject) r.people)) [
    | inl e ↦ rw (e, update_checked) nothing
    | inr (stored, e) ↦
        rw (e, update_checked)
          (write_Effects (overlay stored form) r subject stored
            (validated t r (overlay stored form)) e refl)
  ]

  pub update_principal-Effects :
      (subject : Text) (form : Form) (r : Roster)
      → Effects issuable r (update_principal lower t now actor subject form r).1
  unfolding update_principal
  update_principal-Effects subject form r = read_Effects r _ (update_Effects form r _)

  switch_Effects :
      (disabled : Bool) (r : Roster) (o : Outcome Text)
      → Effects issuable r (set_disabled_checked t now actor disabled r o).1
  unfolding set_disabled_checked switch
  switch_Effects disabled r (refused why) = nothing
  switch_Effects disabled r unrecognised = nothing
  switch_Effects disabled r (ok subject) = elim (Option-cases (find (named t subject) r.people)) [
    | inl e ↦ rw (e, set_disabled_checked) nothing
    | inr (stored, e) ↦ elim (Bool-cases (disabled && is_last t subject stored r)) [
      | inl h ↦ rw (e, set_disabled_checked, h) nothing
      | inr h ↦
          rw (e, set_disabled_checked, h)
            (and_then (one issuable (turned t now actor subject disabled stored e h)) (revisited _))
    ]
  ]

  pub set_disabled-Effects :
      (subject : Text) (disabled : Bool) (r : Roster)
      → Effects issuable r (set_disabled lower t now actor subject disabled r).1
  unfolding set_disabled
  set_disabled-Effects subject disabled r = switch_Effects disabled r _

  remove_Effects : (r : Roster) (o : Outcome Text) → Effects issuable r (delete_checked t r o).1
  unfolding delete_checked remove_person
  remove_Effects r (refused why) = nothing
  remove_Effects r unrecognised = nothing
  remove_Effects r (ok subject) = elim (Option-cases (find (named t subject) r.people)) [
    | inl e ↦ rw (e, delete_checked) nothing
    | inr (stored, e) ↦ elim (Bool-cases (is_last t subject stored r)) [
      | inl h ↦ rw (e, delete_checked, h) nothing
      | inr h ↦
          rw (e, delete_checked, h)
            (and_then (and_then (one issuable (removed t subject stored e h)) (forgotten _))
              (revisited _))
    ]
  ]

  pub delete_principal-Effects :
      (subject : Text) (r : Roster) → Effects issuable r (delete_principal lower t subject r).1
  unfolding delete_principal
  delete_principal-Effects subject r = remove_Effects r _
