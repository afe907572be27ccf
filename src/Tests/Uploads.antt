-- ===== src/Tests/Uploads.antt =====
-- An upload of one byte (src/stigmergy/capture/uploads.py), from its session to its capture.
use stigmergy.Prelude.{ℕ, ◌≡◌, refl, String, false, none, some, inl, List, [], ◌∷◌, arith}
use stigmergy.Kernel.Tenancy.{Session}
use stigmergy.Capture.Uploads.{
  Artifact, staging, content, Upload, Store, err, not_linked, new_upload, create_upload, get, put,
  check_staged, pending, promote, promote_all, mark_verified, select_uploads, finalize_uploads,
  consume_uploads,
}
use stigmergy.Capture.Uploads.Consumed.{consumed_once}

abbrev acme : Session
acme = record { tenant = some 1; platform = false }

abbrev digest : List ℕ → String
digest [] = "none"
digest (b ∷ bs) = "some"

abbrev scan : Artifact
scan = record {
  blob_ref = content "some";
  sha256 = "some";
  bytes = 1;
  media_type = "text/plain";
  original_name = some "a.txt";
  source_url = none;
}

abbrev no_uploads : Store
no_uploads = record { uploads = []; objects = [] }

abbrev asked : Store
asked = (create_upload acme 10 10 3 "ann" "k" scan no_uploads).1

abbrev staged : Store
staged = record asked { objects = (staging 3, 7 ∷ []) ∷ asked.objects }

abbrev verified : Store
verified = (finalize_uploads digest acme 20 20 "ann" (3 ∷ []) staged).1

abbrev session : Upload
session = record (new_upload 1 3 10 "ann" "k" scan) { verified_at = some 20 }

consumed_once_example :
    let after = (consume_uploads acme 30 "ann" (3 ∷ []) 70 verified).1 in
    consume_uploads acme 31 "bob" (3 ∷ []) 71 after ≡ (err not_linked, after)
consumed_once_example =
    consumed_once acme 30 "ann" (3 ∷ []) 70 verified
      (unfold finalize_uploads select_uploads pending check_staged promote_all promote put get
          mark_verified create_upload new_upload in
        (tt, tt))
      (unfold consume_uploads finalize_uploads select_uploads pending check_staged promote_all
          promote put get mark_verified create_upload new_upload in
        refl)
      3 (inl refl) acme 31 "bob" (3 ∷ []) 71 (inl refl) (λ q. omega (arith, q))
