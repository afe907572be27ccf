-- ===== src/Capture/Uploads/Stored.antt =====
-- The evidence that verified uploads have.
use stigmergy.Prelude.{
  ℕ, ◌≡◌, refl, subst, String, true, false, ◌&&◌, ◌||◌, not, ◌⊎◌, inl, inr, Option, none, some,
  List, [], ◌∷◌, arith, ◌==◌, ==_iff, ltb, any, all, find, is_empty, is_some, length, In, All,
  All-In, All-imp, All-append, All-update_In, AllDistinct, AllDistinct-eq, AllDistinct-update_rows,
  AllDistinct-snoc, any-false, find-some-In, Bool-cases, Option-cases, &&-elim,
}
use stigmergy.Kernel.Tenancy.{Session, visible}
use stigmergy.Capture.Uploads.{
  Key, content, Objects, Artifact, Upload, Store, Refusal, Result, ok, err, new_upload, keyed,
  create_upload, owned, has_id, contains, distinct, select_uploads, total_bytes, max_capture_bytes,
  is_late, check_staged, pending, promote, promote_all, ids_of, mark_verified, count_marked,
  finalize_uploads, linkable, linked, consume_uploads,
}
use stigmergy.Capture.Uploads.Evidence.{Has, IsNamed, promote-Has_old, promote-IsNamed, promote-Has}

Result-cases : {A : Type 0} (r : Result A) → ((a : A) × (r ≡ ok a)) ⊎ ((e : Refusal) × (r ≡ err e))
Result-cases (ok a) = inl (a, refl)
Result-cases (err e) = inr (e, refl)

ok_list : {A : Type 0} (xs ys : List A) → ◌≡◌ {A = Result (List A)} (ok xs) (ok ys) → xs ≡ ys
ok_list xs ys e = cc e

some_list : {A : Type 0} (xs ys : List A) → ◌≡◌ {A = Option (List A)} (some xs) (some ys) → xs ≡ ys
some_list xs ys e = cc e

module _ (sha256 : List ℕ → String) where
  -- blob_matches_digest, and the object of a verified session that waits to be consumed
  pub record IsBacked (objects : Objects) (u : Upload) : Type 0 where
    pub by_digest : u.artifact.blob_ref ≡ content u.artifact.sha256
    pub backed :
        is_some u.verified_at ≡ true → u.consumed_by ≡ none → Has u.artifact.blob_ref objects

  -- Objects stand under their digests, sessions have ids of their own, and the object of each verified
  -- session that waits to be consumed is there.
  pub record IsStored (s : Store) : Type 0 where
    pub named : All (IsNamed sha256) s.objects
    pub ids : AllDistinct (λ (u : Upload). u.id) s.uploads
    pub all_backed : All (IsBacked s.objects) s.uploads

  grown-IsBacked :
      (objects stored : Objects) (us : List Upload)
      → ((k : Key) → Has k objects → Has k stored)
      → All (IsBacked objects) us
      → All (IsBacked stored) us
  grown-IsBacked objects stored us more h =
      All-imp _ _ us
        (λ u b. record {
          by_digest = b.by_digest;
          backed = λ v n. more u.artifact.blob_ref (b.backed v n);
        })
        h

  pub create_upload-IsStored :
      (c : Session) (now clock id : ℕ) (actor key : String) (artifact : Artifact) (s : Store)
      → artifact.blob_ref ≡ content artifact.sha256
      → any (has_id id) s.uploads ≡ false
      → IsStored s
      → IsStored (create_upload c now clock id actor key artifact s).1
  unfolding create_upload new_upload
  create_upload-IsStored c now clock id actor key artifact s digest fresh h =
      elim (Option-cases c.tenant) [
        | inl n ↦ rw (n, create_upload) h
        | inr (t, n) ↦
            elim (Option-cases (find (λ u. (u.tenant_id == t) && keyed actor key u) s.uploads)) [
              | inr (u, f) ↦ rw (n, f, create_upload) h
              | inl f ↦
                  rw (n, f, create_upload)
                    (record {
                      named = h.named;
                      ids =
                          AllDistinct-snoc (λ (u : Upload). u.id) s.uploads _
                            (All-imp _ _ s.uploads
                              (λ u other e. absurd (ground (arith, other, (==_iff u.id id).1 e)))
                              (any-false (has_id id) s.uploads fresh))
                            h.ids;
                      all_backed =
                          All-append _ s.uploads _ h.all_backed
                            (record { by_digest = digest; backed = λ v w. absurd (cc v) }, tt);
                    })
            ]
      ]

  -- what the store's sessions waiting for a check are
  pending-In :
      (c : Session) (actor : String) (ids : List ℕ) (s : Store) (us : List Upload)
      → select_uploads c actor ids s ≡ some us
      → All (λ (u : Upload). In u s.uploads) us
  unfolding select_uploads
  pending-In c actor [] s us h = subst (All (λ (u : Upload). In u s.uploads)) (some_list [] us h) tt
  pending-In c actor (i ∷ is) s us h = elim (Option-cases (find (owned c actor i) s.uploads)) [
    | inl n ↦ absurd (cc (rw (select_uploads, n) at h))
    | inr (u, n) ↦ elim (Option-cases (select_uploads c actor is s)) [
      | inl r ↦ absurd (cc (rw (select_uploads, n, r) at h))
      | inr (vs, r) ↦
          subst (All (λ (u : Upload). In u s.uploads))
            (some_list _ us (rw (select_uploads, n, r) at h))
            ((find-some-In (owned c actor i) u s.uploads n).0, pending-In c actor is s vs r)
    ]
  ]

  waiting-In :
      (objects : Objects) (uploads us : List Upload) (waiting : List (Upload × List ℕ))
      → All (λ (u : Upload). In u uploads) us
      → pending sha256 objects us ≡ ok waiting
      → All (λ (w : Upload × List ℕ). In w.0 uploads) waiting
  unfolding pending
  waiting-In objects uploads [] waiting m h =
      subst (All (λ (w : Upload × List ℕ). In w.0 uploads)) (ok_list [] waiting h) tt
  waiting-In objects uploads (u ∷ us) waiting m h = elim (Bool-cases (is_some u.verified_at)) [
    | inl e ↦ waiting-In objects uploads us waiting m.1 (rw (pending, e) at h)
    | inr e ↦ elim (Result-cases (check_staged sha256 objects u)) [
      | inr (bad, g) ↦ absurd (cc (rw (pending, e, g) at h))
      | inl (blob, g) ↦ elim (Result-cases (pending sha256 objects us)) [
        | inr (bad, r) ↦ absurd (cc (rw (pending, e, g, r) at h))
        | inl (more, r) ↦
            subst (All (λ (w : Upload × List ℕ). In w.0 uploads))
              (ok_list _ waiting (rw (pending, e, g, r) at h))
              (m.0, waiting-In objects uploads us more m.1 r)
      ]
    ]
  ]

  ids_of-In :
      (i : ℕ) (waiting : List (Upload × List ℕ))
      → contains (ids_of sha256 waiting) i ≡ true
      → (w : Upload × List ℕ) × In w waiting × (w.0.id ≡ i)
  ids_of-In i [] h = absurd (cc h)
  ids_of-In i ((u, blob) ∷ more) h = elim (Bool-cases (u.id == i)) [
    | inl e ↦ ((u, blob), inl refl, (==_iff u.id i).0 e)
    | inr e ↦ let (w, m, q) = ids_of-In i more (ground (arith, h, e)) in (w, inr m, q)
  ]

  -- Marking the sessions whose bytes were promoted keeps the store as it must be.
  marked-IsStored :
      (c : Session) (now : ℕ) (s : Store) (waiting : List (Upload × List ℕ))
      → IsStored s
      → All (λ (w : Upload × List ℕ). In w.0 s.uploads) waiting
      → All (λ (w : Upload × List ℕ). Has w.0.artifact.blob_ref s.objects) waiting
      → IsStored (mark_verified sha256 c now (ids_of sha256 waiting) s)
  unfolding mark_verified
  marked-IsStored c now s waiting h own there = record {
    named = h.named;
    ids = AllDistinct-update_rows (λ (u : Upload). u.id) _ _ s.uploads (λ u. refl) h.ids;
    all_backed =
        All-update_In (IsBacked s.objects) _ _ s.uploads
          (λ u m b e.
            let (w, n, q) = ids_of-In u.id waiting (&&-elim (visible c u.tenant_id) _ e).1 in
            let one =
              AllDistinct-eq (λ (z : Upload). z.id) s.uploads w.0 u h.ids (All-In _ w waiting own n)
                m q in
            record {
              by_digest = b.by_digest;
              backed = λ v k.
                  subst (λ (z : Upload). Has z.artifact.blob_ref s.objects) one
                    (All-In _ w waiting there n);
            })
          h.all_backed;
  }

  promote_all-IsStored :
      (c : Session) (now : ℕ) (us : List Upload) (waiting : List (Upload × List ℕ)) (s : Store)
      → IsStored s
      → All (λ (u : Upload). In u s.uploads) us
      → pending sha256 s.objects us ≡ ok waiting
      → IsStored (promote_all sha256 c now us waiting s).1
  unfolding promote_all
  promote_all-IsStored c now us waiting s h m p =
      let (done, stored) = promote sha256 waiting s.objects in
      let kept : Store = record s { objects = stored } in
      let kept_is : IsStored kept = record {
        named = promote-IsNamed sha256 waiting s.objects h.named;
        ids = h.ids;
        all_backed =
            grown-IsBacked s.objects stored s.uploads
              (λ k. promote-Has_old sha256 k waiting s.objects) h.all_backed;
      } in
      elim (Bool-cases done) [
        | inr e ↦ rw (e, promote_all) kept_is
        | inl e ↦
            elim (Bool-cases (count_marked sha256 c (ids_of sha256 waiting) s == length waiting)) [
              | inr g ↦ rw (e, g, promote_all) kept_is
              | inl g ↦
                  rw (e, g, promote_all)
                    (marked-IsStored c now kept waiting kept_is
                      (waiting-In s.objects s.uploads us waiting m p)
                      (promote-Has sha256 waiting s.objects e))
            ]
      ]

  pub finalize_uploads-IsStored :
      (c : Session) (now clock : ℕ) (actor : String) (ids : List ℕ) (s : Store)
      → IsStored s
      → IsStored (finalize_uploads sha256 c now clock actor ids s).1
  unfolding finalize_uploads
  finalize_uploads-IsStored c now clock actor ids s h =
      elim (Bool-cases (is_empty ids || not (distinct ids))) [
        | inl a ↦ rw (a, finalize_uploads) h
        | inr a ↦ elim (Option-cases (select_uploads c actor ids s)) [
          | inl n ↦ rw (a, n, finalize_uploads) h
          | inr (us, n) ↦ elim (Bool-cases (ltb max_capture_bytes (total_bytes us))) [
            | inl b ↦ rw (a, n, b, finalize_uploads) h
            | inr b ↦ elim (Bool-cases (any (is_late clock) us)) [
              | inl d ↦ rw (a, n, b, d, finalize_uploads) h
              | inr d ↦ elim (Result-cases (pending sha256 s.objects us)) [
                | inr (bad, p) ↦ rw (a, n, b, d, p, finalize_uploads) h
                | inl (waiting, p) ↦
                    rw (a, n, b, d, p, finalize_uploads)
                      (promote_all-IsStored c now us waiting s h (pending-In c actor ids s us n) p)
              ]
            ]
          ]
        ]
      ]

  pub consume_uploads-IsStored :
      (c : Session) (now : ℕ) (actor : String) (ids : List ℕ) (capture : ℕ) (s : Store)
      → IsStored s
      → IsStored (consume_uploads c now actor ids capture s).1
  unfolding consume_uploads
  consume_uploads-IsStored c now actor ids capture s h =
      elim (Bool-cases
        (all (λ i. any (λ u. has_id i u && linkable c actor ids capture u) s.uploads) ids)) [
          | inr e ↦ rw (e, consume_uploads) h
          | inl e ↦
              rw (e, consume_uploads)
                (record {
                  named = h.named;
                  ids =
                      AllDistinct-update_rows (λ (u : Upload). u.id) _ _ s.uploads (λ u. refl)
                        h.ids;
                  all_backed =
                      All-update_In (IsBacked s.objects) (linkable c actor ids capture)
                        (linked now capture) s.uploads
                        (λ u m b k. record {
                          by_digest = b.by_digest;
                          backed = λ v n. absurd (cc n);
                        })
                        h.all_backed;
                })
        ]
