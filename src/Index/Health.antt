-- ===== src/Index/Health.antt =====
-- src/stigmergy/index/health.py: the row that says how far the search index has followed a tenant's
-- repository. `now` is the transaction's time.
pub mod Noticed
use stigmergy.Prelude.{
  ℕ, ◌+◌, ◌*◌, String, Bool, true, false, ◌&&◌, ◌||◌, Option, none, some, List, [], ◌∷◌, ◌++◌, ltb,
  if◌then◌else◌, is_empty,
}
use stigmergy.Capture.Schema.{seconds, coalesce}

abbrev pub convergence_grace : ℕ
convergence_grace = seconds (15 * 60)

abbrev pub full_rebuild_max_age : ℕ
full_rebuild_max_age = seconds (26 * 3600)

-- the tenant's row of index_health
pub record Health : Type 0 where
  pub repository_head_sha : String
  pub indexed_commit_sha : String
  pub dirty : Bool
  pub dirty_since : Option ℕ
  pub last_incremental_at : Option ℕ
  pub last_full_rebuild_at : Option ℕ
  pub indexed_rows : ℕ
  pub updated_at : ℕ

unfoldable pub new_row : ℕ → Health
new_row now = record {
  repository_head_sha = "";
  indexed_commit_sha = "";
  dirty = true;
  dirty_since = some now;
  last_incremental_at = none;
  last_full_rebuild_at = none;
  indexed_rows = 0;
  updated_at = now;
}

-- INSERT ... ON CONFLICT (tenant_id, singleton) DO NOTHING
unfoldable pub ensure_schema : ℕ → Option Health → Health
unfolding new_row
ensure_schema now none = new_row now
ensure_schema now (some h) = h

unfoldable pub mark_dirty : ℕ → String → Option Health → Health
unfolding ensure_schema
mark_dirty now head row =
    let h = ensure_schema now row in
    record h {
      repository_head_sha = head;
      dirty_since = if h.dirty then h.dirty_since else some now;
      dirty = true;
      updated_at = now;
    }

unfoldable pub record_incremental : ℕ → String → Option ℕ → Option Health → Health
unfolding ensure_schema
record_incremental now commit rows row =
    let h = ensure_schema now row in
    record h {
      repository_head_sha = commit;
      indexed_commit_sha = commit;
      last_incremental_at = some now;
      indexed_rows = coalesce rows h.indexed_rows;
      updated_at = now;
    }

unfoldable pub record_full_rebuild : ℕ → String → ℕ → Option Health → Health
unfolding ensure_schema
record_full_rebuild now commit rows row =
    let h = ensure_schema now row in
    record h {
      repository_head_sha = commit;
      indexed_commit_sha = commit;
      dirty = false;
      dirty_since = none;
      last_full_rebuild_at = some now;
      indexed_rows = rows;
      updated_at = now;
    }

pub data Warning : Type 0 where
  not_converged rebuild_is_old : Warning

-- more than the span ago
abbrev pub longer_ago : ℕ → ℕ → Option ℕ → Bool
longer_ago span now none = false
longer_ago span now (some at) = ltb (at + span) now

abbrev pub later_than : Option ℕ → Option ℕ → Bool
later_than (some a) (some b) = ltb b a
later_than _ _ = false

abbrev pub changed_since : Health → Bool
changed_since h = h.dirty || later_than h.last_incremental_at h.last_full_rebuild_at

abbrev pub old_rebuild : ℕ → Health → Option ℕ → Bool
old_rebuild now h none = true
old_rebuild now h (some at) = longer_ago full_rebuild_max_age now (some at) && changed_since h

-- the warnings of `read`, which is healthy when there are none
unfoldable pub warnings : ℕ → Option Health → List Warning
unfolding ensure_schema
warnings now row =
    let h = ensure_schema now row in
    (if h.dirty && longer_ago convergence_grace now h.dirty_since then not_converged ∷ [] else [])
    ++ (if old_rebuild now h h.last_full_rebuild_at then rebuild_is_old ∷ [] else [])

unfoldable pub healthy : ℕ → Option Health → Bool
unfolding warnings
healthy now row = is_empty (warnings now row)
