-- ===== src/Capture/Uploads/Purged.antt =====
-- What the removal of expired uploads leaves.
use stigmergy.Prelude.{
  ℕ, ◌≡◌, refl, sym, ap, ◌∙◌, subst, String, Bool, true, false, ◌&&◌, not, inl, inr, none, List, [],
  ◌∷◌, arith, leb, keep, is_some, In, All, All-In, All-of, AllDistinct-keep, In-keep, In-any,
  Bool-cases,
}
use stigmergy.Capture.Uploads.{
  Key, staging, content, key_eq, Objects, Upload, Store, is_expired, is_live, purge_objects,
  purge_expired,
}
use stigmergy.Capture.Uploads.Evidence.{
  Has, IsNamed, key_eq_sound, key_eq_refl, get-delete, delete-IsNamed,
}
use stigmergy.Capture.Uploads.Stored.{IsStored}

module _ (sha256 : List ℕ → String) where
  -- the objects that a purge leaves
  purge_objects-Has :
      (elsewhere : Key → Bool) (now : ℕ) (uploads us : List Upload) (d : String) (objects : Objects)
      → is_live elsewhere now uploads (content d) ≡ true
      → Has (content d) objects
      → Has (content d) (purge_objects elsewhere now uploads us objects)
  unfolding purge_objects
  purge_objects-Has elsewhere now uploads [] d objects live m = m
  purge_objects-Has elsewhere now uploads (u ∷ us) d objects live m =
      let freed = get-delete (staging u.id) (content d) objects refl m in
      elim (Bool-cases (is_live elsewhere now uploads u.artifact.blob_ref)) [
        | inl e ↦ rw (e, purge_objects) (purge_objects-Has elsewhere now uploads us d _ live freed)
        | inr e ↦
            let other : key_eq u.artifact.blob_ref (content d) ≡ false =
              elim (Bool-cases (key_eq u.artifact.blob_ref (content d))) [
                | inl g ↦ absurd (
                    cc (
                      sym e
                      ∙ ap (is_live elsewhere now uploads)
                          (key_eq_sound u.artifact.blob_ref (content d) g)
                      ∙ live))
                | inr g ↦ g
              ] in
            rw (e, purge_objects)
              (purge_objects-Has elsewhere now uploads us d _ live
                (get-delete u.artifact.blob_ref (content d) _ other freed))
      ]

  purge_objects-IsNamed :
      (elsewhere : Key → Bool) (now : ℕ) (uploads us : List Upload) (objects : Objects)
      → All (IsNamed sha256) objects
      → All (IsNamed sha256) (purge_objects elsewhere now uploads us objects)
  unfolding purge_objects
  purge_objects-IsNamed elsewhere now uploads [] objects h = h
  purge_objects-IsNamed elsewhere now uploads (u ∷ us) objects h =
      let freed = delete-IsNamed sha256 (staging u.id) objects h in
      elim (Bool-cases (is_live elsewhere now uploads u.artifact.blob_ref)) [
        | inl e ↦ rw (e, purge_objects) (purge_objects-IsNamed elsewhere now uploads us _ freed)
        | inr e ↦
            rw (e, purge_objects)
              (purge_objects-IsNamed elsewhere now uploads us _
                (delete-IsNamed sha256 u.artifact.blob_ref _ freed))
      ]

  pub purge_expired-IsStored :
      (elsewhere : Key → Bool) (now : ℕ) (s : Store)
      → IsStored sha256 s
      → IsStored sha256 (purge_expired elsewhere now s).1
  unfolding purge_expired
  purge_expired-IsStored elsewhere now s h =
      let gone = keep (is_expired now) s.uploads in
      let left = keep (λ u. not (is_expired now u)) s.uploads in
      record {
        named = purge_objects-IsNamed elsewhere now s.uploads gone s.objects h.named;
        ids = AllDistinct-keep (λ (u : Upload). u.id) _ s.uploads h.ids;
        all_backed = All-of _ left (λ u m.
            let (own, fresh) = In-keep _ u s.uploads m in
            let b = All-In _ u s.uploads h.all_backed own in
            record {
              by_digest = b.by_digest;
              backed = λ v n.
                  let live : is_live elsewhere now s.uploads u.artifact.blob_ref ≡ true =
                    needed elsewhere now s.uploads u own fresh n in
                  subst (λ k. Has k (purge_objects elsewhere now s.uploads gone s.objects))
                    (sym b.by_digest)
                    (purge_objects-Has elsewhere now s.uploads gone u.artifact.sha256 s.objects
                      (subst (λ k. is_live elsewhere now s.uploads k ≡ true) b.by_digest live)
                      (subst (λ k. Has k s.objects) b.by_digest (b.backed v n)));
            });
      }
    where
      needed :
          (elsewhere : Key → Bool) (now : ℕ) (us : List Upload) (u : Upload)
          → In u us
          → not (is_expired now u) ≡ true
          → u.consumed_by ≡ none
          → is_live elsewhere now us u.artifact.blob_ref ≡ true
      needed elsewhere now us u own fresh n =
          let waits : (not (is_some u.consumed_by)
                && (leb now u.expires_at && key_eq u.artifact.blob_ref u.artifact.blob_ref))
              ≡ true =
            rw (n, key_eq_refl u.artifact.blob_ref) (ground (arith, fresh)) in
          ground (
            arith,
            In-any
                (λ (z : Upload).
                  not (is_some z.consumed_by)
                  && (leb now z.expires_at && key_eq z.artifact.blob_ref u.artifact.blob_ref))
                u us own waits,
          )
