-- ===== src/Ops/Workspace/Running.antt =====
-- A request while it runs: what its steps leave of the requests.
use stigmergy.Prelude.{
  ℕ, ◌≡◌, refl, sym, ap, ◌∙◌, subst, String, true, false, inl, inr, Option, none, some, List, [],
  ◌∷◌, map, arith, ==_iff, In, All, All-imp, All-update_In, AllDistinct, AllDistinct-update_rows,
  AllDistinct-eq, Bool-cases, Option-cases, update_rows,
}
use stigmergy.Capture.Schema.{running, abandoned}
use stigmergy.Ops.Workspace.State.{
  Table, Deletion, Receipt, World, ok, ineligible, has_id, set_request, begun,
}
use stigmergy.Ops.Workspace.Tables.{tenant_tables}
use stigmergy.Ops.Workspace.Order.{Result-cases}
use stigmergy.Ops.Workspace.Chain.{and_then-keeps}
use stigmergy.Ops.Workspace.Run.{
  Outside, delete_rows, sweep, garbage_of, github_removes, record_repository, remove_repository,
  remove_rows, drop_indexes, remove_evidence, forget, through_rows, through_indexes,
  through_evidence, run,
}
use stigmergy.Ops.Workspace.Cuts.{
  Point, at_claim, repository_removed, repository_recorded, rows_removed, evidence_swept,
  evidence_recorded, left_at,
}

-- A request that ended failed has no record that its repository was deleted.
abbrev pub IsSafe : Deletion → Type 0
IsSafe r = r.status ≡ abandoned → r.repo_deleted ≡ false

-- A record that a repository was deleted is true.
abbrev pub IsConfirmed : List String → Deletion → Type 0
IsConfirmed removed r = r.repo_deleted ≡ true → In r.repo removed

pub record IsSound (w : World) : Type 0 where
  pub safe : All IsSafe w.requests
  pub confirmed : All (IsConfirmed w.removed) w.requests
  pub ids : AllDistinct (λ (r : Deletion). r.id) w.requests

-- while request `k` of the repository runs
pub record IsRunning (k : ℕ) (repo : String) (removed : List String) (r : Deletion) : Type 0 where
  pub runs : r.id ≡ k → r.status ≡ running
  pub own : r.id ≡ k → r.repo ≡ repo
  pub safe : IsSafe r
  pub confirmed : IsConfirmed removed r

pub record Under (k : ℕ) (repo : String) (w : World) : Type 0 where
  pub all_run : All (IsRunning k repo w.removed) w.requests
  pub ids : AllDistinct (λ (r : Deletion). r.id) w.requests

-- what `_record` writes in a run
set_request-Under :
    (k : ℕ) (repo : String) (f : Deletion → Deletion) (w : World)
    → ((r : Deletion) → (f r).id ≡ r.id)
    → ((r : Deletion) → (f r).status ≡ r.status)
    → ((r : Deletion) → (f r).repo ≡ r.repo)
    → ((r : Deletion) → r.repo ≡ repo → IsConfirmed w.removed r → IsConfirmed w.removed (f r))
    → Under k repo w
    → Under k repo (set_request k f w)
set_request-Under k repo f w same keeps same_repo true_of u = record {
  all_run =
      All-update_In (IsRunning k repo w.removed) (has_id k) f w.requests
        (λ r m old e.
          let mine = (==_iff r.id k).0 e in
          let now_running : (f r).status ≡ running = keeps r ∙ old.runs mine in
          record {
            runs = λ q. now_running;
            own = λ q. same_repo r ∙ old.own mine;
            safe = λ q. absurd (cc (sym now_running ∙ q));
            confirmed = true_of r (old.own mine) old.confirmed;
          })
        u.all_run;
  ids = AllDistinct-update_rows (λ (r : Deletion). r.id) (has_id k) f w.requests same u.ids;
}

module _ (out : Outside) (item : Deletion) where
  -- What GitHub removed stands in the list when it says so.
  github_removes-Under :
      (w : World)
      → Under item.id item.repo w
      → Under item.id item.repo (github_removes out item w).1
        × ((said : String)
            → (github_removes out item w).0 ≡ ok (some said)
            → In item.repo (github_removes out item w).1.removed)
  unfolding github_removes
  github_removes-Under w u = elim (Bool-cases item.repo_deleted) [
    | inl e ↦ rw (e, github_removes) (u, λ said h. absurd (cc h))
    | inr e ↦ elim (Option-cases (ineligible item.workspace_id w)) [
      | inr (reason, n) ↦ rw (e, n, github_removes) (u, λ said h. absurd (cc h))
      | inl n ↦ elim (Option-cases out.remove_repo) [
        | inl g ↦ rw (e, n, g, github_removes) (u, λ said h. absurd (cc h))
        | inr (remove, g) ↦ elim (Result-cases (remove item.repo)) [
          | inr (bad, r) ↦ rw (e, n, g, r, github_removes) (u, λ said h. absurd (cc h))
          | inl (told, r) ↦
              rw (e, n, g, r, github_removes)
                (
                  record {
                    all_run =
                        All-imp (IsRunning item.id item.repo w.removed)
                          (IsRunning item.id item.repo (item.repo ∷ w.removed)) w.requests
                          (λ z old. record {
                            runs = old.runs;
                            own = old.own;
                            safe = old.safe;
                            confirmed = λ q. inr (old.confirmed q);
                          })
                          u.all_run;
                    ids = u.ids;
                  },
                  λ said h. inl refl,
                )
        ]
      ]
    ]
  ]

  record_repository-Under :
      (receipt : Receipt) (told : Option String) (w : World)
      → ((said : String) → told ≡ some said → In item.repo w.removed)
      → Under item.id item.repo w
      → Under item.id item.repo (record_repository out item receipt told w).1
  unfolding record_repository
  record_repository-Under receipt none w gone u = u
  record_repository-Under receipt (some said) w gone u =
      set_request-Under item.id item.repo _ w (λ z. refl) (λ z. refl) (λ z. refl)
        (λ z mine old q. subst (λ n. In n w.removed) (sym mine) (gone said refl)) u

  remove_repository-Under :
      (w : World)
      → Under item.id item.repo w
      → Under item.id item.repo (remove_repository out item item.receipt w).1
  unfolding remove_repository
  remove_repository-Under w u =
      let (removes, gone) = github_removes-Under w u in
      and_then-keeps (Under item.id item.repo) (github_removes out item w)
        (record_repository out item item.receipt) removes
        (λ told e.
          record_repository-Under item.receipt told (github_removes out item w).1
            (λ said q. gone said (e ∙ ap ok q)) removes)

  remove_rows-Under :
      (receipt : Receipt) (w : World)
      → Under item.id item.repo w
      → Under item.id item.repo (remove_rows out item receipt w).1
  unfolding remove_rows delete_rows
  remove_rows-Under receipt w u = elim (Bool-cases item.rows_deleted) [
    | inl e ↦ rw (e, remove_rows) u
    | inr e ↦
        elim (Result-cases (tenant_tables w.foreign_keys (map (λ (t : Table). t.name) w.tables))) [
          | inr (bad, h) ↦ rw (e, remove_rows) (rw (h, delete_rows) u)
          | inl (names, h) ↦
              rw (e, remove_rows)
                (rw (h, delete_rows)
                  (set_request-Under item.id item.repo _ _ (λ z. refl) (λ z. refl) (λ z. refl)
                    (λ z mine old. old) (record { all_run = u.all_run; ids = u.ids })))
        ]
  ]

  remove_evidence-Under :
      (receipt : Receipt) (w : World)
      → Under item.id item.repo w
      → Under item.id item.repo (remove_evidence out item receipt w).1
  unfolding remove_evidence
  remove_evidence-Under receipt w u = elim (Option-cases out.evidence) [
    | inl e ↦ rw (e, remove_evidence) u
    | inr (refuses, e) ↦
        let cleaned : Under item.id item.repo
            (record w { objects = (sweep refuses w.tables (garbage_of out item w) w.objects).1 }) =
          record { all_run = u.all_run; ids = u.ids } in
        elim (Result-cases (sweep refuses w.tables (garbage_of out item w) w.objects).0) [
          | inr (bad, r) ↦ rw (e, r, remove_evidence) cleaned
          | inl (n, r) ↦
              rw (e, r, remove_evidence)
                (set_request-Under item.id item.repo _ _ (λ z. refl) (λ z. refl) (λ z. refl)
                  (λ z mine old. old) cleaned)
        ]
  ]

  drop_indexes-Under :
      (receipt : Receipt) (w : World)
      → Under item.id item.repo w
      → Under item.id item.repo (drop_indexes out item receipt w).1
  unfolding drop_indexes
  drop_indexes-Under receipt w u = elim (Result-cases (out.drop_indexes item.workspace_id)) [
    | inl (n, e) ↦ rw (e, drop_indexes) u
    | inr (bad, e) ↦ rw (e, drop_indexes) u
  ]

  forget-Under :
      (receipt : Receipt) (w : World)
      → Under item.id item.repo w
      → Under item.id item.repo (forget out item receipt w).1
  unfolding forget
  forget-Under receipt w u = elim (Result-cases (out.forget item.workspace_id)) [
    | inl (was, e) ↦ rw (e, forget) u
    | inr (bad, e) ↦ rw (e, forget) u
  ]

  through_indexes-Under :
      (w : World)
      → Under item.id item.repo w
      → Under item.id item.repo (through_indexes out item w).1
  through_indexes-Under w u =
      let named = remove_repository-Under w u in
      let emptied =
        and_then-keeps (Under item.id item.repo) (remove_repository out item item.receipt w)
          (remove_rows out item) named
          (λ a e. remove_rows-Under a (remove_repository out item item.receipt w).1 named) in
      and_then-keeps (Under item.id item.repo) (through_rows out item w) (drop_indexes out item)
        emptied (λ a e. drop_indexes-Under a (through_rows out item w).1 emptied)

  through_evidence-Under :
      (w : World)
      → Under item.id item.repo w
      → Under item.id item.repo (through_evidence out item w).1
  through_evidence-Under w u =
      let before = through_indexes-Under w u in
      and_then-keeps (Under item.id item.repo) (through_indexes out item w)
        (remove_evidence out item) before
        (λ a e. remove_evidence-Under a (through_indexes out item w).1 before)

  pub run-Under :
      (w : World) → Under item.id item.repo w → Under item.id item.repo (run out item w).1
  unfolding run
  run-Under w u =
      let before = through_evidence-Under w u in
      and_then-keeps (Under item.id item.repo) (through_evidence out item w) (forget out item)
        before (λ a e. forget-Under a (through_evidence out item w).1 before)

  -- wherever the run is cut short
  pub left_at-Under :
      (p : Point) (w : World)
      → Under item.id item.repo w
      → Under item.id item.repo (left_at p out item w)
  unfolding left_at
  left_at-Under at_claim w u = u
  left_at-Under repository_removed w u = (github_removes-Under w u).0
  left_at-Under repository_recorded w u = remove_repository-Under w u
  left_at-Under rows_removed w u = through_indexes-Under w u
  left_at-Under evidence_swept w u =
      let before = through_indexes-Under w u in
      elim (Option-cases out.evidence) [
        | inl e ↦ rw (e, left_at) before
        | inr (refuses, e) ↦ rw (e, left_at) (record { all_run = before.all_run; ids = before.ids })
      ]
  left_at-Under evidence_recorded w u = through_evidence-Under w u

begun-IsRunning :
    (k : ℕ) (repo : String) (now : ℕ) (removed : List String) (rows : List Deletion)
    → ((r : Deletion) → In r rows → r.id ≡ k → r.repo ≡ repo)
    → All IsSafe rows
    → All (IsConfirmed removed) rows
    → All (IsRunning k repo removed) (update_rows (has_id k) (begun now) rows)
begun-IsRunning k repo now removed [] one h c = tt
begun-IsRunning k repo now removed (r ∷ rs) one h c =
    let rest = begun-IsRunning k repo now removed rs (λ z m. one z (inr m)) h.1 c.1 in
    elim (Bool-cases (has_id k r)) [
      | inl e ↦
          let starts : (begun now r).status ≡ running = unfold begun in refl in
          rw e (
            record {
              runs = λ q. starts;
              own = λ q. unfold begun in one r (inl refl) ((==_iff r.id k).0 e);
              safe = λ q. absurd (cc (sym starts ∙ q));
              confirmed = unfold begun in c.0;
            },
            rest,
          )
      | inr e ↦ rw e (
        record {
          runs = λ q. absurd (ground (arith, e, (==_iff r.id k).1 q));
          own = one r (inl refl);
          safe = h.0;
          confirmed = c.0;
        },
        rest,
      )
    ]

-- A row that is claimed runs.
pub claim-Under :
    (now : ℕ) (r : Deletion) (w : World)
    → In r w.requests
    → IsSound w
    → Under r.id r.repo (set_request r.id (begun now) w)
unfolding begun
claim-Under now r w m s = record {
  all_run =
      begun-IsRunning r.id r.repo now w.removed w.requests
        (λ z n e.
          ap (λ (d : Deletion). d.repo)
            (AllDistinct-eq (λ (d : Deletion). d.id) w.requests z r s.ids n m e))
        s.safe s.confirmed;
  ids =
      AllDistinct-update_rows (λ (r : Deletion). r.id) (has_id r.id) (begun now) w.requests
        (λ r. unfold begun in refl) s.ids;
}
