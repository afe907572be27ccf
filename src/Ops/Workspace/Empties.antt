-- ===== src/Ops/Workspace/Empties.antt =====
-- What a run that succeeds has removed.
use stigmergy.Prelude.{
  ℕ, ◌≡◌, refl, sym, ap, ◌∙◌, subst, String, true, false, not, inl, inr, none, List, [], ◌∷◌, map,
  find, keep, All, All-of, map-In, Bool-cases, Option-cases, if◌then◌else◌,
}
use stigmergy.Ops.Workspace.State.{
  Workspace, Row, Table, Deletion, Receipt, World, ok, workspace_is,
}
use stigmergy.Ops.Workspace.Tables.{has_name, tenant_tables}
use stigmergy.Ops.Workspace.Order.{tenant_tables-IsOrder, In-has_name, Result-cases}
use stigmergy.Ops.Workspace.Chain.{and_then-ok}
use stigmergy.Ops.Workspace.Run.{
  of_tenant, delete_from, delete_rows, sweep, garbage_of, Outside, remove_repository, remove_rows,
  remove_evidence, drop_indexes, forget, through_rows, through_indexes, through_evidence, run,
}

-- No table holds a row of the tenant, and its workspace is gone.
pub record IsGone (i : ℕ) (w : World) : Type 0 where
  pub no_rows : All (λ (t : Table). keep (of_tenant i) t.rows ≡ []) w.tables
  pub no_workspace : find (workspace_is i) w.workspaces ≡ none

module _ (i : ℕ) where
  keep-none : (rows : List Row) → keep (of_tenant i) (keep (λ r. not (of_tenant i r)) rows) ≡ []
  keep-none [] = refl
  keep-none (r ∷ rs) = elim (Bool-cases (of_tenant i r)) [
    | inl e ↦ rw e (keep-none rs)
    | inr e ↦ rw (e, e) (keep-none rs)
  ]

  find-removed :
      (ws : List Workspace) → find (workspace_is i) (keep (λ t. not (workspace_is i t)) ws) ≡ none
  find-removed [] = refl
  find-removed (t ∷ ts) = elim (Bool-cases (workspace_is i t)) [
    | inl e ↦ rw e (find-removed ts)
    | inr e ↦ rw (e, e) (find-removed ts)
  ]

  delete_from-none :
      (names : List String) (ts : List Table)
      → All (λ (t : Table). has_name names t.name ≡ true) ts
      → All (λ (t : Table). keep (of_tenant i) t.rows ≡ []) (map (delete_from i names) ts)
  delete_from-none names [] h = tt
  delete_from-none names (t ∷ ts) h = (rw h.0 (keep-none t.rows), delete_from-none names ts h.1)

  delete_rows-IsGone :
      (id : ℕ) (receipt done : Receipt) (w : World)
      → (delete_rows id i receipt w).0 ≡ ok done
      → IsGone i (delete_rows id i receipt w).1
  unfolding delete_rows
  delete_rows-IsGone id receipt done w h =
      let all_names = map (λ (t : Table). t.name) w.tables in
      elim (Result-cases (tenant_tables w.foreign_keys all_names)) [
        | inr (bad, e) ↦ absurd (cc (rw (delete_rows, e) at h))
        | inl (names, e) ↦
            let ordered = tenant_tables-IsOrder w.foreign_keys all_names names e in
            rw (e, delete_rows)
              (record {
                no_rows = delete_from-none names w.tables (
                    All-of _ w.tables (λ t m.
                      In-has_name names t.name
                        (ordered.complete t.name (map-In (λ (t : Table). t.name) t w.tables m))));
                no_workspace = find-removed w.workspaces;
              })
      ]

module _ (out : Outside) (item : Deletion) where
  remove_evidence-IsGone :
      (i : ℕ) (receipt : Receipt) (w : World)
      → IsGone i w
      → IsGone i (remove_evidence out item receipt w).1
  unfolding remove_evidence
  remove_evidence-IsGone i receipt w gone = elim (Option-cases out.evidence) [
    | inl e ↦ rw (e, remove_evidence) gone
    | inr (refuses, e) ↦
        elim (Result-cases (sweep refuses w.tables (garbage_of out item w) w.objects).0) [
          | inr (bad, r) ↦
              rw (e, r, remove_evidence)
                (record { no_rows = gone.no_rows; no_workspace = gone.no_workspace })
          | inl (n, r) ↦
              rw (e, r, remove_evidence)
                (record { no_rows = gone.no_rows; no_workspace = gone.no_workspace })
        ]
  ]

  drop_indexes-IsGone :
      (receipt : Receipt) (w : World)
      → IsGone item.workspace_id w
      → IsGone item.workspace_id (drop_indexes out item receipt w).1
  unfolding drop_indexes
  drop_indexes-IsGone receipt w gone = elim (Result-cases (out.drop_indexes item.workspace_id)) [
    | inl (n, e) ↦ rw (e, drop_indexes) gone
    | inr (bad, e) ↦ rw (e, drop_indexes) gone
  ]

  forget-IsGone :
      (receipt : Receipt) (w : World)
      → IsGone item.workspace_id w
      → IsGone item.workspace_id (forget out item receipt w).1
  unfolding forget
  forget-IsGone receipt w gone = elim (Result-cases (out.forget item.workspace_id)) [
    | inl (was, e) ↦ rw (e, forget) gone
    | inr (bad, e) ↦ rw (e, forget) gone
  ]

  remove_rows_still :
      (receipt : Receipt) (w : World)
      → item.rows_deleted ≡ false
      → remove_rows out item receipt w ≡ delete_rows item.id item.workspace_id receipt w
  unfolding remove_rows
  remove_rows_still receipt w still =
      λ i. if still i then (ok receipt, w) else delete_rows item.id item.workspace_id receipt w

  -- A run that succeeds on a request whose rows were still there leaves no row of the workspace in any
  -- table under the row policy, and no workspace of that id.
  pub run-IsGone :
      (w : World) (done : Receipt)
      → item.rows_deleted ≡ false
      → (run out item w).0 ≡ ok done
      → IsGone item.workspace_id (run out item w).1
  unfolding run
  run-IsGone w done still h =
      let gone_at = IsGone item.workspace_id in
      let (r3, e3, g3) = and_then-ok done (through_evidence out item w) (forget out item) h in
      let (r2, e2, g2) =
        and_then-ok r3 (through_indexes out item w) (remove_evidence out item) e3 in
      let (r1, e1, g1) = and_then-ok r2 (through_rows out item w) (drop_indexes out item) e2 in
      let (r0, e0, g0) =
        and_then-ok r1 (remove_repository out item item.receipt w) (remove_rows out item) e1 in
      let w1 = (remove_repository out item item.receipt w).1 in
      let same : remove_rows out item r0 w1 ≡ delete_rows item.id item.workspace_id r0 w1 =
        remove_rows_still r0 w1 still in
      let emptied : gone_at (through_rows out item w).1 =
        subst (λ z. gone_at z.1) (sym (g0 ∙ same))
          (delete_rows-IsGone item.workspace_id item.id r0 r1 w1
            (ap (λ z. z.0) (sym (g0 ∙ same)) ∙ e1)) in
      let dropped : gone_at (through_indexes out item w).1 =
        subst (λ z. gone_at z.1) (sym g1)
          (drop_indexes-IsGone r1 (through_rows out item w).1 emptied) in
      let swept : gone_at (through_evidence out item w).1 =
        subst (λ z. gone_at z.1) (sym g2)
          (remove_evidence-IsGone item.workspace_id r2 (through_indexes out item w).1 dropped) in
      subst (λ z. gone_at z.1) (sym g3) (forget-IsGone r3 (through_evidence out item w).1 swept)
