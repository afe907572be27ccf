-- ===== src/Changes/Ledger/Exact.antt =====
-- The exact patch of a recorded change (`load_exact_patch` of src/stigmergy/changes/store.py).
use stigmergy.Prelude.{
  ℕ, ◌≡◌, refl, sym, ap, ◌∙◌, subst, String, true, Option, none, some, inl, inr, List, ◌==◌, ==_iff,
  str_eq, eq_iff, eq_refl, length, Bool-cases, Option-cases,
}
use stigmergy.Capture.Uploads.{content, Objects, get, put}
use stigmergy.Changes.Ledger.{
  Change, Ledger, Landed, Recorded, record_of, linked_elsewhere, get_change_by_commit, new_change,
  insert_change, record_change, Loaded, patch_of, stored_patch, verified, first_of,
  load_exact_patch,
}

module _ (sha256 : List ℕ → String) where
  verified_own :
      (r : Change) (patch : List ℕ)
      → r.exact_patch_sha256 ≡ sha256 patch
      → r.exact_patch_bytes ≡ length patch
      → verified sha256 r (some patch) ≡ patch_of patch
  verified_own r patch d n =
      let a : (length patch == r.exact_patch_bytes) ≡ true = (==_iff _ _).1 (sym n) in
      let b : str_eq (sha256 patch) r.exact_patch_sha256 ≡ true = (eq_iff _ _).1 (sym d) in
      rw (a, b) refl

  verified_sound :
      (r : Change) (o : Option (List ℕ)) (p : List ℕ)
      → verified sha256 r o ≡ patch_of p
      → (sha256 p ≡ r.exact_patch_sha256) × (length p ≡ r.exact_patch_bytes)
  verified_sound r none p h = absurd (cc h)
  verified_sound r (some patch) p h = elim (Bool-cases (length patch == r.exact_patch_bytes)) [
    | inr a ↦ absurd (cc (rw a at h))
    | inl a ↦ elim (Bool-cases (str_eq (sha256 patch) r.exact_patch_sha256)) [
      | inr b ↦ absurd (cc (rw (a, b) at h))
      | inl b ↦
          let e : patch ≡ p =
            ap (λ (x : Loaded). elim x [ patch_of q ↦ q | _ ↦ patch ]) (rw (a, b) at h) in
          subst (λ q. (sha256 q ≡ r.exact_patch_sha256) × (length q ≡ r.exact_patch_bytes)) e
            ((eq_iff _ _).0 b, (==_iff _ _).0 a)
    ]
  ]

  put_there :
      (blob : List ℕ) (objects : Objects)
      → ((b : List ℕ) → get (content (sha256 blob)) objects ≡ some b → b ≡ blob)
      → get (put sha256 blob objects).0 (put sha256 blob objects).1 ≡ some blob
  unfolding put get
  put_there blob objects own = elim (Option-cases (get (content (sha256 blob)) objects)) [
    | inl e ↦ rw (e, put) (rw (get, eq_refl (sha256 blob)) refl)
    | inr (b, e) ↦ rw (e, put) (rw (e, own b e) refl)
  ]

module _ (sha256 : List ℕ → String) (compress : List ℕ → List ℕ)
    (decompress : List ℕ → Option (List ℕ)) (reconstruct : Change → Option (List ℕ)) (t id now : ℕ)
    (l : Landed) (a : Ledger) where
  abbrev blob : List ℕ
  blob = compress l.patch

  abbrev row : Change
  row = new_change sha256 t id now (put sha256 blob a.objects).0 l

  recorded :
      get_change_by_commit t l.commit_sha a.changes ≡ none
      → (record_change sha256 compress t id now l a).0 ≡ record_of row
  unfolding record_change insert_change new_change
  recorded h =
      rw (h, record_change, insert_change, eq_refl l.parent_commit_sha, eq_refl (sha256 l.patch))
        refl

  -- A commit's change that is recorded for the first time gives back the exact patch at once, when
  -- decompression undoes compression and no other object has the compressed patch's key; it still does
  -- when the object is lost or unreadable, as long as git makes the same patch again; and whatever the
  -- evidence holds later, no patch of another digest or length is ever given for it.
  pub load_exact_patch-record_change :
      (r : Change)
      → decompress (compress l.patch) ≡ some l.patch
      → ((b : List ℕ)
          → get (content (sha256 (compress l.patch))) a.objects ≡ some b
          → b ≡ compress l.patch)
      → get_change_by_commit t l.commit_sha a.changes ≡ none
      → (record_change sha256 compress t id now l a).0 ≡ record_of r
      → (load_exact_patch sha256 decompress reconstruct r
            (record_change sha256 compress t id now l a).1.objects
          ≡ patch_of l.patch)
        × (reconstruct r ≡ some l.patch
            → (later : Objects) → stored_patch decompress r later ≡ none
            → load_exact_patch sha256 decompress reconstruct r later ≡ patch_of l.patch)
        × ((later : Objects) (p : List ℕ)
            → load_exact_patch sha256 decompress reconstruct r later ≡ patch_of p
            → (sha256 p ≡ sha256 l.patch) × (length p ≡ length l.patch))
  unfolding record_change load_exact_patch new_change
  load_exact_patch-record_change r gz own fresh h =
      let same : row ≡ r =
        ap (λ (x : Recorded). elim x [ record_of q ↦ q | linked_elsewhere ↦ row ])
          (sym (recorded fresh) ∙ h) in
      subst
        (λ (q : Change).
          (load_exact_patch sha256 decompress reconstruct q (put sha256 blob a.objects).1
            ≡ patch_of l.patch)
          × (reconstruct q ≡ some l.patch
              → (later : Objects) → stored_patch decompress q later ≡ none
              → load_exact_patch sha256 decompress reconstruct q later ≡ patch_of l.patch)
          × ((later : Objects) (p : List ℕ)
              → load_exact_patch sha256 decompress reconstruct q later ≡ patch_of p
              → (sha256 p ≡ sha256 l.patch) × (length p ≡ length l.patch)))
        same
        (
          ap (λ o. verified sha256 row (first_of o (reconstruct row)))
                (ap (λ (o : Option (List ℕ)). elim o [ none ↦ none | some b ↦ decompress b ])
                    (put_there sha256 blob a.objects own)
                  ∙ gz)
              ∙ verified_own sha256 row l.patch refl refl,
          λ again later lost.
              ap (λ o. verified sha256 row (first_of o (reconstruct row))) lost
              ∙ ap (verified sha256 row) again
              ∙ verified_own sha256 row l.patch refl refl,
          λ later p g. verified_sound sha256 row _ p g,
        )
