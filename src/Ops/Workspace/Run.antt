-- ===== src/Ops/Workspace/Run.antt =====
-- src/stigmergy/ops/erase_workspace.py: `run`, and the turn of the worker around it
-- (`_maybe_erase_workspace` of librarian/worker.py).
use stigmergy.Prelude.{
  ℕ, suc, ◌+◌, String, Bool, true, false, ◌&&◌, ◌||◌, not, Option, none, some, List, [], ◌∷◌, ◌++◌,
  map, ◌==◌, str_eq, if◌then◌else◌, any, find, keep, codes, length,
}
use stigmergy.Prelude.Dict.{Dict}
use stigmergy.Ops.Workspace.State.{
  Row, Table, Receipt, Deletion, World, refused, raised, Result, ok, err, workspace_is, ineligible,
  has_id, set_request, claim, finish, fail, pending,
}
use stigmergy.Ops.Workspace.Tables.{has_name, tenant_tables}

abbrev pub of_tenant : ℕ → Row → Bool
of_tenant i r = r.tenant_id == i

-- `_tenant_refs`, of the rows that the bound tenant sees
unfoldable pub tenant_refs : ℕ → List Table → List String
tenant_refs i [] = []
tenant_refs i (t ∷ ts) = refs_of (keep (of_tenant i) t.rows) ++ tenant_refs i ts
  where
    refs_of : List Row → List String
    refs_of [] = []
    refs_of (r ∷ rs) = r.refs ++ refs_of rs

abbrev pub delete_from : ℕ → List String → Table → Table
delete_from i names t =
    if has_name names t.name then record t { rows = keep (λ r. not (of_tenant i r)) t.rows } else t

-- the row counts that are not zero, in the order of the deletions
unfoldable pub counts_of : ℕ → List Table → List String → Dict ℕ
counts_of i tables [] = []
counts_of i tables (n ∷ ns) =
    let rest = counts_of i tables ns in
    elim (find (λ t. str_eq t.name n) tables) [
      | none ↦ rest
      | some t ↦
          let count = length (keep (of_tenant i) t.rows) in
          if count == 0 then rest else (n, count) ∷ rest
    ]

abbrev stop_acting : ℕ → Option ℕ → Option ℕ
stop_acting i none = none
stop_acting i (some t) = if t == i then none else some t

-- `_delete_rows`, one transaction
unfoldable pub delete_rows : ℕ → ℕ → Receipt → World → Result Receipt × World
unfolding tenant_tables tenant_refs counts_of
delete_rows id i receipt w = elim (tenant_tables w.foreign_keys (map (λ t. t.name) w.tables)) [
  | err e ↦ (err e, w)
  | ok names ↦
      let after = record receipt { rows = counts_of i w.tables names } in
      let garbage = tenant_refs i w.tables in
      (
        ok after,
        set_request id (λ r. record r { rows_deleted = true; garbage = garbage; receipt = after })
            (record w {
              tables = map (delete_from i names) w.tables;
              acting = map (stop_acting i) w.acting;
              workspaces = keep (λ t. not (workspace_is i t)) w.workspaces;
            }),
      )
]

-- `is_live` of capture/references.py
abbrev pub is_live : List Table → String → Bool
is_live tables ref = any (λ t. any (λ (r : Row). has_name r.needs ref) t.rows) tables

abbrev pub without : String → List String → List String
without ref objects = keep (λ o. not (str_eq o ref)) objects

-- The deletion of the recorded objects that no row keeps alive: how many it deleted, or the error
-- of the store, and the objects left. `refuses` tells the objects whose deletion raises.
unfoldable pub sweep :
    (String → Bool) → List Table → List String → List String → Result ℕ × List String
sweep refuses tables [] objects = (ok 0, objects)
sweep refuses tables (ref ∷ refs) objects =
    if is_live tables ref
    then sweep refuses tables refs objects
    else if refuses ref
    then (err (raised (codes "EvidenceError") (codes ref)), objects)
    else (let (rest, left) = sweep refuses tables refs (without ref objects) in
        (elim rest [ err e ↦ err e | ok n ↦ ok (if has_name objects ref then suc n else n) ], left))

-- What the run calls: the removal of a repository, where the writer has an App for it; the evidence
-- store, by the deletions that raise; the indexes of a tenant; and its checkout.
pub record Outside : Type 0 where
  pub remove_repo : Option (String → Result String)
  pub evidence : Option (String → Bool)
  pub drop_indexes : ℕ → Result ℕ
  pub forget : ℕ → Result Bool

-- A step of a run after the steps before it, unless one of them raised.
abbrev pub and_then :
    {A B : Type 0} → Result A × World → (A → World → Result B × World) → Result B × World
and_then (ok a, w) step = step a w
and_then (err e, w) step = (err e, w)

module _ (out : Outside) (item : Deletion) where
  -- The removal on GitHub and what it says, or none where it was recorded before; the record of it is
  -- a transaction of its own.
  unfoldable pub github_removes : World → Result (Option String) × World
  unfolding ineligible
  github_removes w =
      if item.repo_deleted then (ok none, w) else elim (ineligible item.workspace_id w) [
        | some reason ↦ (err (refused reason), w)
        | none ↦ elim out.remove_repo [
          | none ↦ (
            err (
                raised (codes "RuntimeError")
                  (codes "the repository cannot be deleted without the librarian GitHub App")),
            w,
          )
          | some remove ↦ elim (remove item.repo) [
            | err e ↦ (err e, w)
            | ok said ↦ (ok (some said), record w { removed = item.repo ∷ w.removed })
          ]
        ]
      ]

  unfoldable pub record_repository : Receipt → Option String → World → Result Receipt × World
  record_repository receipt none w = (ok receipt, w)
  record_repository receipt (some said) w =
      let after = record receipt { repository = some said } in
      (ok after, set_request item.id (λ r. record r { repo_deleted = true; receipt = after }) w)

  unfoldable pub remove_repository : Receipt → World → Result Receipt × World
  unfolding github_removes record_repository
  remove_repository receipt w = and_then (github_removes w) (record_repository receipt)

  unfoldable pub remove_rows : Receipt → World → Result Receipt × World
  unfolding delete_rows
  remove_rows receipt w =
      if item.rows_deleted then (ok receipt, w) else delete_rows item.id item.workspace_id receipt w

  abbrev pub garbage_of : World → List String
  garbage_of w = elim (find (has_id item.id) w.requests) [ none ↦ [] | some r ↦ r.garbage ]

  unfoldable pub remove_evidence : Receipt → World → Result Receipt × World
  unfolding sweep
  remove_evidence receipt w = elim out.evidence [
    | none ↦ (ok receipt, w)
    | some refuses ↦
        let (swept, left) = sweep refuses w.tables (garbage_of w) w.objects in
        let cleaned = record w { objects = left } in
        elim swept [
          | err e ↦ (err e, cleaned)
          | ok n ↦
              let after = record receipt { evidence_deleted = receipt.evidence_deleted + n } in
              (
                ok after,
                set_request item.id (λ r. record r { garbage = []; receipt = after }) cleaned,
              )
        ]
  ]

  unfoldable pub drop_indexes : Receipt → World → Result Receipt × World
  drop_indexes receipt w = elim (out.drop_indexes item.workspace_id) [
    | err e ↦ (err e, w)
    | ok n ↦ (ok (record receipt { indexes_dropped = receipt.indexes_dropped + n }), w)
  ]

  unfoldable pub forget : Receipt → World → Result Receipt × World
  forget receipt w = elim (out.forget item.workspace_id) [
    | err e ↦ (err e, w)
    | ok was ↦ (ok (record receipt { checkout_removed = was || receipt.checkout_removed }), w)
  ]

  abbrev pub through_rows : World → Result Receipt × World
  through_rows w = and_then (remove_repository item.receipt w) remove_rows

  abbrev pub through_indexes : World → Result Receipt × World
  through_indexes w = and_then (through_rows w) drop_indexes

  abbrev pub through_evidence : World → Result Receipt × World
  through_evidence w = and_then (through_indexes w) remove_evidence

  -- `run`
  unfoldable pub run : World → Result Receipt × World
  unfolding remove_repository remove_rows drop_indexes remove_evidence forget
  run w = and_then (through_evidence w) forget

-- the run of a claimed request, and how it is recorded
unfoldable pub carry_out : Outside → ℕ → Deletion → World → Bool × World
unfolding run finish fail
carry_out out now r w =
    let (ran, after) = run out r w in
    elim ran [
      | err e ↦ (false, fail now r e after)
      | ok receipt ↦ (true, finish now r.id receipt after)
    ]

abbrev pub after_claim : Outside → ℕ → Option Deletion × World → Bool × World
after_claim out now (none, w) = (false, w)
after_claim out now (some r, w) = carry_out out now r w

-- One turn of `_maybe_erase_workspace`: whether it deleted a workspace, and the state it leaves.
-- `acquired` tells whether the writer lock was free.
unfoldable pub turn : Outside → Bool → ℕ → (ℕ → Bool) → World → Bool × World
unfolding pending claim carry_out
turn out acquired now locked w =
    if pending now w && acquired then after_claim out now (claim now locked w) else (false, w)
