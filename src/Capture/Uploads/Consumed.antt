-- ===== src/Capture/Uploads/Consumed.antt =====
-- Upload sessions over whole runs: the evidence of the verified ones, and the one capture of each.
use stigmergy.Prelude.{
  ℕ, ◌≡◌, ◌≢◌, refl, sym, ap, ◌∙◌, String, Bool, true, false, ◌&&◌, inl, inr, none, some, List, [],
  ◌∷◌, arith, ◌==◌, ==_iff, any, all, update_rows, In, All, All-In, All-of, AllDistinct,
  AllDistinct-eq, any-In, all-In, Bool-cases, &&-elim,
}
use stigmergy.Kernel.Tenancy.{Session}
use stigmergy.Capture.Uploads.{
  Key, staging, content, delete, Artifact, Upload, Store, ok, err, create_upload, has_id,
  finalize_uploads, linkable, linked, not_linked, consume_uploads, purge_expired,
}

module _ (sha256 : List ℕ → String) where
  -- What happens to sessions and objects: the operations, the client's upload of any bytes to the
  -- staged object, and its removal after a capture.
  pub data Life : Store → Type 0 where
    empty : Life (record { uploads = []; objects = [] })
    created :
        {s : Store} (c : Session) (now clock id : ℕ) (actor key : String) (artifact : Artifact)
        → Life s
        → artifact.blob_ref ≡ content artifact.sha256
        → any (has_id id) s.uploads ≡ false
        → Life (create_upload c now clock id actor key artifact s).1
    sent :
        {s : Store} (i : ℕ) (blob : List ℕ)
        → Life s
        → Life (record s { objects = (staging i, blob) ∷ s.objects })
    finalized :
        {s : Store} (c : Session) (now clock : ℕ) (actor : String) (ids : List ℕ)
        → Life s
        → Life (finalize_uploads sha256 c now clock actor ids s).1
    consumed :
        {s : Store} (c : Session) (now : ℕ) (actor : String) (ids : List ℕ) (capture : ℕ)
        → Life s
        → Life (consume_uploads c now actor ids capture s).1
    purged :
        {s : Store} (elsewhere : Key → Bool) (now : ℕ)
        → Life s
        → Life (purge_expired elsewhere now s).1
    cleaned :
        {s : Store} (i : ℕ) → Life s → Life (record s { objects = delete (staging i) s.objects })

module _ (c : Session) (now : ℕ) (actor : String) (ids : List ℕ) (capture : ℕ) where
  linked_all :
      (i : ℕ) (us : List Upload)
      → All (λ (u : Upload). u.id ≡ i → linkable c actor ids capture u ≡ true) us
      → All
          (λ (u : Upload). u.id ≡ i → u.consumed_by ≡ some capture)
          (update_rows (linkable c actor ids capture) (linked now capture) us)
  linked_all i [] h = tt
  linked_all i (u ∷ us) h = elim (Bool-cases (linkable c actor ids capture u)) [
    | inl e ↦ rw e (λ q. refl, linked_all i us h.1)
    | inr e ↦ rw e (λ q. absurd (cc (sym e ∙ h.0 q)), linked_all i us h.1)
  ]

  linkable-same :
      (c' : Session) (actor' : String) (ids' : List ℕ) (other : ℕ) (w : Upload)
      → w.consumed_by ≡ some capture
      → linkable c' actor' ids' other w ≡ true
      → other ≡ capture
  linkable-same c' actor' ids' other w h may =
      let last : elim w.consumed_by [ none ↦ true | some j ↦ j == other ] ≡ true =
        ground (arith, may) in
      sym ((==_iff capture other).0 (rw h at last))

  -- Uploads that were linked to a capture belong to it: another capture, of any actor in any session,
  -- cannot take one of them, and its attempt changes nothing.
  pub consumed_once :
      (s : Store)
      → AllDistinct (λ (u : Upload). u.id) s.uploads
      → (consume_uploads c now actor ids capture s).0 ≡ ok tt
      → (i : ℕ) → In i ids
      → (c' : Session) (now' : ℕ) (actor' : String) (ids' : List ℕ) (other : ℕ) → In i ids'
      → other ≢ capture
      → let after = (consume_uploads c now actor ids capture s).1 in
        consume_uploads c' now' actor' ids' other after ≡ (err not_linked, after)
  unfolding consume_uploads
  consumed_once s distinct_ids won i m c' now' actor' ids' other m' ne =
      elim (Bool-cases
        (all (λ j. any (λ u. has_id j u && linkable c actor ids capture u) s.uploads) ids)) [
          | inr e ↦ absurd (cc (rw (consume_uploads, e) at won))
          | inl e ↦
              let (u, n, both) =
                any-In (λ u. has_id i u && linkable c actor ids capture u) s.uploads
                  (all-In (λ j. any (λ u. has_id j u && linkable c actor ids capture u) s.uploads) i
                    ids e m) in
              let (own, may) = &&-elim (has_id i u) (linkable c actor ids capture u) both in
              let after =
                update_rows (linkable c actor ids capture) (linked now capture) s.uploads in
              let taken = linked_all i s.uploads (
                All-of _ s.uploads (λ z k q.
                  ap (linkable c actor ids capture) (
                    AllDistinct-eq (λ (a : Upload). a.id) s.uploads z u distinct_ids k n
                      (q ∙ sym ((==_iff u.id i).0 own)))
                  ∙ may)) in
              let refused : all
                    (λ j. any (λ u. has_id j u && linkable c' actor' ids' other u) after) ids'
                  ≡ false =
                elim (Bool-cases (
                  all (λ j. any (λ u. has_id j u && linkable c' actor' ids' other u) after) ids')) [
                    | inr g ↦ g
                    | inl g ↦
                        let (w, k, good) =
                          any-In (λ u. has_id i u && linkable c' actor' ids' other u) after
                            (all-In
                              (λ j. any (λ u. has_id j u && linkable c' actor' ids' other u) after)
                              i ids' g m') in
                        let (mine, free) =
                          &&-elim (has_id i w) (linkable c' actor' ids' other w) good in
                        absurd (
                          ne (
                            linkable-same c' actor' ids' other w
                              (All-In _ w after taken k ((==_iff w.id i).0 mine)) free))
                  ] in
              rw (e, consume_uploads) (rw refused)
        ]
