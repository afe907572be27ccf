-- ===== src/Capture/Uploads/Evidence.antt =====
-- The objects of the evidence store, when some are put and deleted.
use stigmergy.Prelude.{
  ℕ, ◌≡◌, refl, sym, ap, ◌∙◌, subst, String, true, false, inl, inr, some, List, [], ◌∷◌, ==_iff,
  ==_refl, str_eq, eq_iff, eq_refl, is_some, All, Bool-cases, Option-cases,
}
use stigmergy.Capture.Uploads.{
  Key, staging, content, key_eq, Objects, get, delete, Upload, put, promote,
}

pub key_eq_sound : (k j : Key) → key_eq k j ≡ true → k ≡ j
key_eq_sound (staging i) (staging j) h = ap staging ((==_iff i j).0 h)
key_eq_sound (staging i) (content e) h = absurd (cc h)
key_eq_sound (content d) (staging j) h = absurd (cc h)
key_eq_sound (content d) (content e) h = ap content ((eq_iff d e).0 h)

pub key_eq_refl : (k : Key) → key_eq k k ≡ true
key_eq_refl (staging i) = ==_refl i
key_eq_refl (content d) = eq_refl d

abbrev pub Has : Key → Objects → Type 0
Has k objects = is_some (get k objects) ≡ true

pub get-delete :
    (k j : Key) (objects : Objects) → key_eq k j ≡ false → Has j objects → Has j (delete k objects)
unfolding get delete
get-delete k j [] h m = m
get-delete k j ((i, blob) ∷ objects) h m = elim (Bool-cases (key_eq i k)) [
  | inl e ↦
      let other : key_eq i j ≡ false = ap (λ z. key_eq z j) (key_eq_sound i k e) ∙ h in
      rw e (get-delete k j objects h (rw other at m))
  | inr e ↦ elim (Bool-cases (key_eq i j)) [
    | inl g ↦ rw (e, g)
    | inr g ↦ rw (e, g) (get-delete k j objects h (rw g at m))
  ]
]

module _ (sha256 : List ℕ → String) where
  abbrev pub IsNamed : Key × List ℕ → Type 0
  IsNamed (staging i, blob) = Unit
  IsNamed (content d, blob) = sha256 blob ≡ d

  pub named_blob :
      (d : String) (objects : Objects)
      → All IsNamed objects
      → Has (content d) objects
      → (blob : List ℕ) × (get (content d) objects ≡ some blob) × (sha256 blob ≡ d)
  unfolding get
  named_blob d [] h m = absurd (cc m)
  named_blob d ((staging i, blob) ∷ objects) h m = named_blob d objects h.1 m
  named_blob d ((content e, blob) ∷ objects) h m = elim (Bool-cases (str_eq e d)) [
    | inl g ↦ (blob, rw g, h.0 ∙ (eq_iff e d).0 g)
    | inr g ↦ rw g (named_blob d objects h.1 (rw g at m))
  ]

  pub delete-IsNamed :
      (k : Key) (objects : Objects) → All IsNamed objects → All IsNamed (delete k objects)
  unfolding delete
  delete-IsNamed k [] h = tt
  delete-IsNamed k ((j, blob) ∷ objects) h = elim (Bool-cases (key_eq j k)) [
    | inl e ↦ rw e (delete-IsNamed k objects h.1)
    | inr e ↦ rw e (h.0, delete-IsNamed k objects h.1)
  ]

  put-IsNamed :
      (blob : List ℕ) (objects : Objects)
      → All IsNamed objects
      → All IsNamed (put sha256 blob objects).1
  unfolding put
  put-IsNamed blob objects h = elim (Option-cases (get (content (sha256 blob)) objects)) [
    | inl e ↦ rw (e, put) (refl, h)
    | inr (old, e) ↦ rw (e, put) h
  ]

  put-Has :
      (blob : List ℕ) (objects : Objects)
      → Has (put sha256 blob objects).0 (put sha256 blob objects).1
  unfolding put get
  put-Has blob objects = elim (Option-cases (get (content (sha256 blob)) objects)) [
    | inl e ↦ rw (e, put) (rw (get, eq_refl (sha256 blob)))
    | inr (old, e) ↦ rw (e, put) (rw e)
  ]

  put-Has_old :
      (blob : List ℕ) (k : Key) (objects : Objects)
      → Has k objects
      → Has k (put sha256 blob objects).1
  unfolding put get
  put-Has_old blob k objects h = elim (Option-cases (get (content (sha256 blob)) objects)) [
    | inl e ↦
        rw (e, put)
          (elim (Bool-cases (key_eq (content (sha256 blob)) k)) [
            | inl g ↦ rw (get, g)
            | inr g ↦ rw (get, g) h
          ])
    | inr (old, e) ↦ rw (e, put) h
  ]

  pub promote-Has_old :
      (k : Key) (waiting : List (Upload × List ℕ)) (objects : Objects)
      → Has k objects
      → Has k (promote sha256 waiting objects).1
  unfolding promote
  promote-Has_old k [] objects h = h
  promote-Has_old k ((u, blob) ∷ more) objects h =
      let stored = put sha256 blob objects in
      let kept = put-Has_old blob k objects h in
      elim (Bool-cases (key_eq stored.0 u.artifact.blob_ref)) [
        | inl e ↦ rw (e, promote) (promote-Has_old k more stored.1 kept)
        | inr e ↦ rw (e, promote) kept
      ]

  pub promote-IsNamed :
      (waiting : List (Upload × List ℕ)) (objects : Objects)
      → All IsNamed objects
      → All IsNamed (promote sha256 waiting objects).1
  unfolding promote
  promote-IsNamed [] objects h = h
  promote-IsNamed ((u, blob) ∷ more) objects h =
      let stored = put sha256 blob objects in
      let kept = put-IsNamed blob objects h in
      elim (Bool-cases (key_eq stored.0 u.artifact.blob_ref)) [
        | inl e ↦ rw (e, promote) (promote-IsNamed more stored.1 kept)
        | inr e ↦ rw (e, promote) kept
      ]

  pub promote-Has :
      (waiting : List (Upload × List ℕ)) (objects : Objects)
      → (promote sha256 waiting objects).0 ≡ true
      → All
          (λ (w : Upload × List ℕ). Has w.0.artifact.blob_ref (promote sha256 waiting objects).1)
          waiting
  unfolding promote
  promote-Has [] objects h = tt
  promote-Has ((u, blob) ∷ more) objects h =
      let stored = put sha256 blob objects in
      elim (Bool-cases (key_eq stored.0 u.artifact.blob_ref)) [
        | inl e ↦
            let goes_on : promote sha256 ((u, blob) ∷ more) objects ≡ promote sha256 more stored.1 =
              rw (e, promote) refl in
            subst
              (λ z. All (λ (w : Upload × List ℕ). Has w.0.artifact.blob_ref z.1) ((u, blob) ∷ more))
              (sym goes_on)
              (
                promote-Has_old u.artifact.blob_ref more stored.1 (
                    subst (λ k. Has k stored.1) (key_eq_sound stored.0 u.artifact.blob_ref e)
                      (put-Has blob objects)),
                promote-Has more stored.1 (sym (ap (λ z. z.0) goes_on) ∙ h),
              )
        | inr e ↦ absurd (cc (rw (promote, e) at h))
      ]
