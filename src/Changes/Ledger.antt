-- ===== src/Changes/Ledger.antt =====
-- src/stigmergy/changes/store.py: the ledger of landed changes. git's patch, gzip and sha256 are
-- arguments, a patch is the list of its bytes, and the evidence store is that of capture/evidence.py.
pub mod Final
pub mod Exact
use stigmergy.Prelude.{
  ℕ, ◌-◌, String, Bool, true, false, ◌&&◌, ◌||◌, not, Option, none, some, List, [], ◌∷◌, ◌++◌, ltb,
  ◌==◌, str_eq, if◌then◌else◌, any, find, keep, take, drop, sort_by, length, min, max, Text, codes,
  is_empty, after_prefix, is_some, one_line,
}
use stigmergy.Kernel.Tenancy.{visible}
use stigmergy.Kernel.Tenancy.Scope.{acting_for}
use stigmergy.Kernel.Layers.{Result, ok, layer_error, virtual_path}
use stigmergy.Capture.Uploads.{Key, Objects, get, put}

pub data Trigger : Type 0 where
  capture garden delete contradiction_resolution entity : Trigger

pub data Action : Type 0 where
  created updated deleted : Action

pub data Role : Type 0 where
  note_page concept_page entity_page project_page source_page ops : Role

pub record PathChange : Type 0 where
  pub path : Text
  pub action : Action
  pub page_role : Role
  pub reason : Text
  pub before_sha256 : String
  pub after_sha256 : String
  pub additions : ℕ
  pub deletions : ℕ
  pub contradictions_added : List Text
  pub contradictions_resolved : List Text

-- one row of knowledge_changes
pub record Change : Type 0 where
  pub id : ℕ
  pub tenant_id : ℕ
  pub trigger : Trigger
  pub actor : String
  pub capture_id : Option ℕ
  pub job_run_id : Option ℕ
  pub parent_commit_sha : String
  pub commit_sha : String
  pub summary : String
  pub manifest : List PathChange
  pub exact_patch_ref : Key
  pub exact_patch_sha256 : String
  pub exact_patch_bytes : ℕ
  pub created_at : ℕ

pub record Ledger : Type 0 where
  pub changes : List Change
  pub objects : Objects

-- what `record_change` is asked to record
pub record Landed : Type 0 where
  pub trigger : Trigger
  pub actor : String
  pub capture_id : Option ℕ
  pub job_run_id : Option ℕ
  pub parent_commit_sha : String
  pub commit_sha : String
  pub summary : String
  pub manifest : List PathChange
  pub patch : List ℕ

pub data Recorded : Type 0 where
  record_of : Change → Recorded
  linked_elsewhere : Recorded

abbrev pub of_commit : ℕ → String → Change → Bool
of_commit t commit r = visible (acting_for t) r.tenant_id && str_eq r.commit_sha commit

unfoldable pub get_change_by_commit : ℕ → String → List Change → Option Change
get_change_by_commit t commit rows = find (of_commit t commit) rows

unfoldable pub get_change : ℕ → ℕ → List Change → Option Change
get_change t id rows = find (λ r. visible (acting_for t) r.tenant_id && r.id == id) rows

unfoldable pub new_change : (List ℕ → String) → ℕ → ℕ → ℕ → Key → Landed → Change
new_change sha256 t id now ref l = record {
  id = id;
  tenant_id = t;
  trigger = l.trigger;
  actor = l.actor;
  capture_id = l.capture_id;
  job_run_id = l.job_run_id;
  parent_commit_sha = l.parent_commit_sha;
  commit_sha = l.commit_sha;
  summary = l.summary;
  manifest = l.manifest;
  exact_patch_ref = ref;
  exact_patch_sha256 = sha256 l.patch;
  exact_patch_bytes = length l.patch;
  created_at = now;
}

-- the check of the row that was inserted or found
abbrev pub checked : (List ℕ → String) → Landed → Change → Recorded
checked sha256 l r =
    if not (str_eq r.parent_commit_sha l.parent_commit_sha)
      || not (str_eq r.exact_patch_sha256 (sha256 l.patch))
    then linked_elsewhere
    else record_of r

-- INSERT ... ON CONFLICT (tenant_id, commit_sha) DO NOTHING, or else the row that is there
unfoldable pub insert_change :
    (List ℕ → String) → ℕ → ℕ → ℕ → Key → Landed → List Change → Recorded × List Change
unfolding new_change get_change_by_commit
insert_change sha256 t id now ref l rows = elim (get_change_by_commit t l.commit_sha rows) [
  | some r ↦ (checked sha256 l r, rows)
  | none ↦ let row = new_change sha256 t id now ref l in (checked sha256 l row, rows ++ row ∷ [])
]

unfoldable pub record_change :
    (sha256 : List ℕ → String) (compress : List ℕ → List ℕ)
    → ℕ
    → ℕ
    → ℕ
    → Landed
    → Ledger
    → Recorded × Ledger
unfolding insert_change put
record_change sha256 compress t id now l ledger =
    let blob = compress l.patch in
    let (ref, objects) = put sha256 blob ledger.objects in
    let (answer, rows) = insert_change sha256 t id now ref l ledger.changes in
    (answer, record { changes = rows; objects = objects })

abbrev same_trigger : Trigger → Trigger → Bool
same_trigger capture capture = true
same_trigger garden garden = true
same_trigger delete delete = true
same_trigger contradiction_resolution contradiction_resolution = true
same_trigger entity entity = true
same_trigger _ _ = false

abbrev wanted : Option Trigger → Change → Bool
wanted none r = true
wanted (some trigger) r = same_trigger r.trigger trigger

-- ORDER BY created_at DESC, id DESC
abbrev pub newer : Change → Change → Bool
newer a b = ltb b.created_at a.created_at || (a.created_at == b.created_at && ltb b.id a.id)

unfoldable pub list_changes : ℕ → Option Trigger → ℕ → ℕ → List Change → List Change
list_changes t trigger limit offset rows = take (max 1 (min limit 200)) (
    drop offset
      (sort_by newer (keep (λ r. visible (acting_for t) r.tenant_id && wanted trigger r) rows)))

pub data Loaded : Type 0 where
  patch_of : List ℕ → Loaded
  wrong_count wrong_digest unavailable : Loaded

-- the object, decompressed
abbrev pub stored_patch : (List ℕ → Option (List ℕ)) → Change → Objects → Option (List ℕ)
stored_patch decompress r objects = elim (get r.exact_patch_ref objects) [
  | none ↦ none
  | some blob ↦ decompress blob
]

abbrev pub verified : (List ℕ → String) → Change → Option (List ℕ) → Loaded
verified sha256 r none = unavailable
verified sha256 r (some patch) =
    if not (length patch == r.exact_patch_bytes)
    then wrong_count
    else if not (str_eq (sha256 patch) r.exact_patch_sha256)
    then wrong_digest
    else patch_of patch

abbrev pub first_of {ℓ} : {A : Type ℓ} → Option A → Option A → Option A
first_of none other = other
first_of (some a) other = some a

-- `reconstruct` is git's patch of the two commits, or none where that fails.
unfoldable pub load_exact_patch :
    (sha256 : List ℕ → String) (decompress : List ℕ → Option (List ℕ))
    (reconstruct : Change → Option (List ℕ))
    → Change
    → Objects
    → Loaded
unfolding get
load_exact_patch sha256 decompress reconstruct r objects =
    verified sha256 r (first_of (stored_patch decompress r objects) (reconstruct r))

abbrev starts : String → Text → Bool
starts folder path = is_some (after_prefix (codes folder) path)

abbrev role_of : Result Text → Role
role_of layer_error = ops
role_of (ok path) =
    if starts "wiki/notes/" path
    then note_page
    else if starts "wiki/concepts/" path
    then concept_page
    else if starts "wiki/entities/" path
    then entity_page
    else if starts "wiki/projects/" path
    then project_page
    else if starts "sources/" path
    then source_page
    else ops

-- `_role`
unfoldable pub role : Text → Role
unfolding virtual_path
role path = role_of (virtual_path path)

-- `_reason`
unfoldable pub reason_of : Text → Text
unfolding one_line
reason_of value =
    let line = take 1000 (one_line value) in
    if is_empty line then codes "Updated team knowledge" else line
