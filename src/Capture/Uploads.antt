-- ===== src/Capture/Uploads.antt =====
-- src/stigmergy/capture/uploads.py: the upload sessions, beside the evidence store (`put`, `get`, `head`
-- and `delete` of capture/evidence.py). An object's key is `uploads/<session>` or the path that
-- `content_ref` makes of a digest. Artifacts are given as ArtifactRef has checked them.
pub mod Evidence
pub mod Stored
pub mod Purged
pub mod Consumed
use stigmergy.Prelude.{
  ℕ, zero, suc, ◌+◌, ◌*◌, ◌≡◌, refl, String, Bool, true, false, ◌&&◌, ◌||◌, not, Option, none, some,
  List, [], ◌∷◌, ◌++◌, map, ltb, leb, ◌==◌, str_eq, if◌then◌else◌, any, all, find, keep,
  update_rows, is_empty, is_some, length, Text,
}
use stigmergy.Kernel.Tenancy.{Session, visible}
use stigmergy.Capture.Schema.{seconds, coalesce}

abbrev pub upload_ttl_s : ℕ
upload_ttl_s = 300

-- schema.MAX_CAPTURE_BYTES
abbrev pub max_capture_bytes : ℕ
max_capture_bytes = 50 * 1024 * 1024

pub data Key : Type 0 where
  staging : ℕ → Key
  content : String → Key

abbrev pub key_eq : Key → Key → Bool
key_eq (staging i) (staging j) = i == j
key_eq (content d) (content e) = str_eq d e
key_eq _ _ = false

-- an object is the list of its bytes
abbrev pub Objects : Type 0
Objects = List (Key × List ℕ)

unfoldable pub get : Key → Objects → Option (List ℕ)
get k [] = none
get k ((j, blob) ∷ objects) = let rest = get k objects in if key_eq j k then some blob else rest

unfoldable pub delete : Key → Objects → Objects
delete k [] = []
delete k ((j, blob) ∷ objects) =
    let rest = delete k objects in if key_eq j k then rest else (j, blob) ∷ rest

pub record Artifact : Type 0 where
  pub blob_ref : Key
  pub sha256 : String
  pub bytes : ℕ
  pub media_type : String
  pub original_name : Option String
  pub source_url : Option String

abbrev opt_eq : Option String → Option String → Bool
opt_eq none none = true
opt_eq (some a) (some b) = str_eq a b
opt_eq _ _ = false

abbrev pub artifact_eq : Artifact → Artifact → Bool
artifact_eq a b =
    key_eq a.blob_ref b.blob_ref
    && (str_eq a.sha256 b.sha256
        && ((a.bytes == b.bytes)
            && (str_eq a.media_type b.media_type
                && (opt_eq a.original_name b.original_name && opt_eq a.source_url b.source_url))))

-- one row of upload_sessions
pub record Upload : Type 0 where
  pub id : ℕ
  pub tenant_id : ℕ
  pub actor : String
  pub idempotency_key : String
  pub artifact : Artifact
  pub created_at : ℕ
  pub expires_at : ℕ
  pub verified_at : Option ℕ
  pub consumed_by : Option ℕ
  pub consumed_at : Option ℕ

pub record Store : Type 0 where
  pub uploads : List Upload
  pub objects : Objects

pub data Refusal : Type 0 where
  no_tenant key_reused expired invalid_list not_found too_large unavailable mismatch not_promoted
        not_recorded not_linked :
      Refusal

pub data Result (A : Type 0) : Type 0 where
  ok : A → Result A
  err : Refusal → Result A

pub record Created : Type 0 where
  pub upload_id : ℕ
  pub put_to : Option Key
  pub expires_at : ℕ

unfoldable pub new_upload : ℕ → ℕ → ℕ → String → String → Artifact → Upload
new_upload tenant id now actor key artifact = record {
  id = id;
  tenant_id = tenant;
  actor = actor;
  idempotency_key = key;
  artifact = artifact;
  created_at = now;
  expires_at = now + seconds upload_ttl_s;
  verified_at = none;
  consumed_by = none;
  consumed_at = none;
}

abbrev pub keyed : String → String → Upload → Bool
keyed actor key u = str_eq u.actor actor && str_eq u.idempotency_key key

abbrev pub is_late : ℕ → Upload → Bool
is_late clock u = leb u.expires_at clock && not (is_some u.verified_at)

-- what `create_upload` answers for the session that the key names; `clock` is datetime.now
abbrev pub answer : ℕ → Artifact → Upload → Result Created
answer clock artifact u =
    if not (artifact_eq u.artifact artifact)
    then err key_reused
    else if is_late clock u
    then err expired
    else ok (record {
      upload_id = u.id;
      put_to = if is_some u.verified_at then none else some (staging u.id);
      expires_at = u.expires_at;
    })

unfoldable pub create_upload :
    Session → ℕ → ℕ → ℕ → String → String → Artifact → Store → Result Created × Store
unfolding new_upload
create_upload c now clock id actor key artifact s = elim c.tenant [
  | none ↦ (err no_tenant, s)
  | some t ↦ elim (find (λ u. (u.tenant_id == t) && keyed actor key u) s.uploads) [
    | some u ↦ (answer clock artifact u, s)
    | none ↦
        let row = new_upload t id now actor key artifact in
        (answer clock artifact row, record s { uploads = s.uploads ++ row ∷ [] })
  ]
]

abbrev pub has_id : ℕ → Upload → Bool
has_id i u = u.id == i

abbrev pub owned : Session → String → ℕ → Upload → Bool
owned c actor i u = visible c u.tenant_id && (str_eq u.actor actor && has_id i u)

abbrev pub contains : List ℕ → ℕ → Bool
contains ids i = any (λ j. j == i) ids

abbrev pub distinct : List ℕ → Bool
distinct [] = true
distinct (i ∷ is) = not (contains is i) && distinct is

-- the actor's sessions of the ids, in their order; `none` when one is missing
unfoldable pub select_uploads : Session → String → List ℕ → Store → Option (List Upload)
select_uploads c actor [] s = some []
select_uploads c actor (i ∷ is) s =
    let rest = select_uploads c actor is s in
    elim (find (owned c actor i) s.uploads) [
      | none ↦ none
      | some u ↦ elim rest [ none ↦ none | some us ↦ some (u ∷ us) ]
    ]

abbrev pub total_bytes : List Upload → ℕ
total_bytes [] = 0
total_bytes (u ∷ us) = u.artifact.bytes + total_bytes us

-- `sha256` is the hexadecimal digest of bytes.
module _ (sha256 : List ℕ → String) where
  -- evidence.put: the key of the bytes; an object that is there stays
  unfoldable pub put : List ℕ → Objects → Key × Objects
  unfolding get
  put blob objects =
      let k = content (sha256 blob) in
      (k, elim (get k objects) [ some old ↦ objects | none ↦ (k, blob) ∷ objects ])

  -- the bytes of a session that waits, as they were declared
  unfoldable pub check_staged : Objects → Upload → Result (List ℕ)
  unfolding get
  check_staged objects u = elim (get (staging u.id) objects) [
    | none ↦ err unavailable
    | some blob ↦
        if not (length blob == u.artifact.bytes)
        then err mismatch
        else if not (str_eq (sha256 blob) u.artifact.sha256)
        then err mismatch
        else ok blob
  ]

  -- the sessions that wait, with their bytes
  unfoldable pub pending : Objects → List Upload → Result (List (Upload × List ℕ))
  unfolding check_staged
  pending objects [] = ok []
  pending objects (u ∷ us) =
      let rest = pending objects us in
      if is_some u.verified_at then rest else elim (check_staged objects u) [
        | err e ↦ err e
        | ok blob ↦ elim rest [ err e ↦ err e | ok more ↦ ok ((u, blob) ∷ more) ]
      ]

  unfoldable pub promote : List (Upload × List ℕ) → Objects → Bool × Objects
  unfolding put
  promote [] objects = (true, objects)
  promote ((u, blob) ∷ more) objects =
      let (k, stored) = put blob objects in
      let rest = promote more stored in
      if key_eq k u.artifact.blob_ref then rest else (false, stored)

  abbrev pub ids_of : List (Upload × List ℕ) → List ℕ
  ids_of [] = []
  ids_of ((u, blob) ∷ more) = u.id ∷ ids_of more

  unfoldable pub mark_verified : Session → ℕ → List ℕ → Store → Store
  mark_verified c now ids s = record s {
    uploads =
        update_rows (λ u. visible c u.tenant_id && contains ids u.id)
          (λ u. record u { verified_at = some now }) s.uploads;
  }

  abbrev pub count_marked : Session → List ℕ → Store → ℕ
  count_marked c ids s = length (keep (λ u. visible c u.tenant_id && contains ids u.id) s.uploads)

  abbrev pub artifacts_of : List Upload → List Artifact
  artifacts_of us = map (λ u. u.artifact) us

  -- what is done with the sessions that wait: their bytes are promoted, and they are marked
  unfoldable pub promote_all :
      Session → ℕ → List Upload → List (Upload × List ℕ) → Store → Result (List Artifact) × Store
  unfolding promote mark_verified
  promote_all c now us waiting s =
      let (promoted, stored) = promote waiting s.objects in
      let kept = record s { objects = stored } in
      if not promoted
      then (err not_promoted, kept)
      else if not (count_marked c (ids_of waiting) s == length waiting)
      then (err not_recorded, kept)
      else (ok (artifacts_of us), mark_verified c now (ids_of waiting) kept)

  -- `finalize_uploads`; the caller's transaction takes the sessions back when it raises, but not the
  -- objects
  unfoldable pub finalize_uploads :
      Session → ℕ → ℕ → String → List ℕ → Store → Result (List Artifact) × Store
  unfolding select_uploads pending promote_all
  finalize_uploads c now clock actor ids s =
      if is_empty ids || not (distinct ids)
      then (err invalid_list, s)
      else elim (select_uploads c actor ids s) [
        | none ↦ (err not_found, s)
        | some us ↦
            if ltb max_capture_bytes (total_bytes us)
            then (err too_large, s)
            else if any (is_late clock) us
            then (err expired, s)
            else elim (pending s.objects us) [
              | err e ↦ (err e, s)
              | ok waiting ↦ promote_all c now us waiting s
            ]
      ]

-- the rows that `consume_uploads` links
abbrev pub linkable : Session → String → List ℕ → ℕ → Upload → Bool
linkable c actor ids capture u =
    visible c u.tenant_id
    && (str_eq u.actor actor
        && (contains ids u.id
            && (is_some u.verified_at
                && elim u.consumed_by [ none ↦ true | some j ↦ j == capture ])))

abbrev pub linked : ℕ → ℕ → Upload → Upload
linked now capture u = record u {
  consumed_by = some capture;
  consumed_at = some (coalesce u.consumed_at now);
}

-- `consume_uploads`; the caller's transaction takes the update back when it raises. A row has one id
-- and the rows linked are of the ids, so the sets are equal when each id was linked.
unfoldable pub consume_uploads : Session → ℕ → String → List ℕ → ℕ → Store → Result Unit × Store
consume_uploads c now actor ids capture s =
    if all (λ i. any (λ u. has_id i u && linkable c actor ids capture u) s.uploads) ids
    then (
      ok tt,
      record s {
        uploads = update_rows (linkable c actor ids capture) (linked now capture) s.uploads;
      },
    )
    else (err not_linked, s)

abbrev pub is_expired : ℕ → Upload → Bool
is_expired now u = ltb u.expires_at now

-- `is_live` of references.py: a session that waits to be consumed needs the object, or a row of
-- another table does
abbrev pub is_live : (Key → Bool) → ℕ → List Upload → Key → Bool
is_live elsewhere now uploads k =
    elsewhere k
    || any
        (λ u. not (is_some u.consumed_by) && (leb now u.expires_at && key_eq u.artifact.blob_ref k))
        uploads

-- the deletions of `_purge_expired`: of each expired session the staged object, and its blob where
-- nothing needs it
unfoldable pub purge_objects : (Key → Bool) → ℕ → List Upload → List Upload → Objects → Objects
unfolding delete
purge_objects elsewhere now uploads [] objects = objects
purge_objects elsewhere now uploads (u ∷ us) objects =
    let freed = delete (staging u.id) objects in
    purge_objects elsewhere now uploads us (
      if is_live elsewhere now uploads u.artifact.blob_ref
      then freed
      else delete u.artifact.blob_ref freed)

-- `purge_expired`, in the scope of the platform and with an evidence store: how many sessions it removed
unfoldable pub purge_expired : (Key → Bool) → ℕ → Store → ℕ × Store
unfolding purge_objects
purge_expired elsewhere now s =
    let gone = keep (is_expired now) s.uploads in
    (
      length gone,
      record {
        uploads = keep (λ u. not (is_expired now u)) s.uploads;
        objects = purge_objects elsewhere now s.uploads gone s.objects;
      },
    )
