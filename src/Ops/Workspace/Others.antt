-- ===== src/Ops/Workspace/Others.antt =====
-- What a turn of the worker leaves alone: the workspaces whose deletion nobody asked for.
use mathlib.Core.Path.{ap₂}
use stigmergy.Prelude.{
  ℕ, ◌≡◌, ◌≢◌, ◌⊎◌, refl, sym, ap, ◌∙◌, String, Bool, true, false, ◌&&◌, not, inl, inr, none, some,
  List, [], ◌∷◌, map, arith, sort_by, ==_iff, str_eq, eq_iff, any, any-false, find, keep, In,
  All-In, In-keep, In-sort_by, Bool-cases, Option-cases, Option,
}
use stigmergy.Capture.Schema.{is_open}
use stigmergy.Ops.Workspace.State.{
  Workspace, Row, Table, Deletion, Receipt, World, Error, Result, workspace_is, ineligible, has_id,
  is_open_for, set_request, claim, finish, fail, pending, begun, first, older, is_due,
}
use stigmergy.Ops.Workspace.Tables.{has_name, tenant_tables}
use stigmergy.Ops.Workspace.Order.{Result-cases}
use stigmergy.Ops.Workspace.Chain.{and_then-keeps}
use stigmergy.Ops.Workspace.Run.{
  of_tenant, delete_from, delete_rows, is_live, without, sweep, Outside, and_then, github_removes,
  record_repository, remove_repository, remove_rows, drop_indexes, remove_evidence, forget,
  through_rows, through_indexes, through_evidence, run, carry_out, turn, garbage_of,
}

abbrev own_table : ℕ → Table → Table
own_table j t = record t { rows = keep (of_tenant j) t.rows }

abbrev with_rows : Table → List Row → Table
with_rows t rows = record t { rows = rows }

-- the rows of one tenant, by table
abbrev pub own_tables : ℕ → List Table → List Table
own_tables j tables = map (own_table j) tables

-- A state is as it was for a workspace: the workspace's row and its rows in every table are the
-- same, and of the stored objects that one of these rows needs none is gone.
pub record Untouched (j : ℕ) (w v : World) : Type 0 where
  pub same_rows : own_tables j v.tables ≡ own_tables j w.tables
  pub same_workspace : find (workspace_is j) v.workspaces ≡ find (workspace_is j) w.workspaces
  pub objects_stay :
      (ref : String)
      → is_live (own_tables j w.tables) ref ≡ true
      → has_name w.objects ref ≡ true
      → has_name v.objects ref ≡ true

untouched : (j : ℕ) (w : World) → Untouched j w w
untouched j w = record { same_rows = refl; same_workspace = refl; objects_stay = λ ref n h. h }

then-Untouched : (j : ℕ) (w v u : World) → Untouched j w v → Untouched j v u → Untouched j w u
then-Untouched j w v u a b = record {
  same_rows = b.same_rows ∙ a.same_rows;
  same_workspace = b.same_workspace ∙ a.same_workspace;
  objects_stay = λ ref n h.
      b.objects_stay ref (ap (λ ts. is_live ts ref) a.same_rows ∙ n) (a.objects_stay ref n h);
}

set_request-Untouched :
    (j i : ℕ) (f : Deletion → Deletion) (w : World) → Untouched j w (set_request i f w)
set_request-Untouched j i f w = record {
  same_rows = refl;
  same_workspace = refl;
  objects_stay = λ ref n h. h;
}

module _ (i j : ℕ) (other : i ≢ j) where
  keep-others :
      (rows : List Row)
      → keep (of_tenant j) (keep (λ r. not (of_tenant i r)) rows) ≡ keep (of_tenant j) rows
  keep-others [] = refl
  keep-others (r ∷ rs) = elim (Bool-cases (of_tenant i r)) [
    | inl e ↦
        let mine : of_tenant j r ≡ false = elim (Bool-cases (of_tenant j r)) [
          | inl g ↦ absurd (other (sym ((==_iff r.tenant_id i).0 e) ∙ (==_iff r.tenant_id j).0 g))
          | inr g ↦ g
        ] in
        rw (e, mine) (keep-others rs)
    | inr e ↦ elim (Bool-cases (of_tenant j r)) [
      | inl g ↦ rw (e, g) (ap (◌∷◌ r) (keep-others rs))
      | inr g ↦ rw (e, g) (keep-others rs)
    ]
  ]

  own_tables-delete_from :
      (names : List String) (ts : List Table)
      → own_tables j (map (delete_from i names) ts) ≡ own_tables j ts
  own_tables-delete_from names [] = refl
  own_tables-delete_from names (t ∷ ts) = ap₂ ◌∷◌ head (own_tables-delete_from names ts)
    where
      head : own_table j (delete_from i names t) ≡ own_table j t
      head = elim (Bool-cases (has_name names t.name)) [
        | inl e ↦ rw e (ap (λ rs. with_rows t rs) (keep-others t.rows))
        | inr e ↦ rw e
      ]

  find-others :
      (ws : List Workspace)
      → find (workspace_is j) (keep (λ t. not (workspace_is i t)) ws) ≡ find (workspace_is j) ws
  find-others [] = refl
  find-others (t ∷ ts) = elim (Bool-cases (workspace_is i t)) [
    | inl e ↦
        let mine : workspace_is j t ≡ false = elim (Bool-cases (workspace_is j t)) [
          | inl g ↦ absurd (other (sym ((==_iff t.id i).0 e) ∙ (==_iff t.id j).0 g))
          | inr g ↦ g
        ] in
        rw (e, mine) (find-others ts)
    | inr e ↦ elim (Bool-cases (workspace_is j t)) [
      | inl g ↦ rw (e, g)
      | inr g ↦ rw (e, g) (find-others ts)
    ]
  ]

  delete_rows-Untouched :
      (id : ℕ) (receipt : Receipt) (w : World) → Untouched j w (delete_rows id i receipt w).1
  unfolding delete_rows
  delete_rows-Untouched id receipt w =
      elim (Result-cases (tenant_tables w.foreign_keys (map (λ t. t.name) w.tables))) [
        | inr (e, h) ↦ rw (h, delete_rows) (untouched j w)
        | inl (names, h) ↦
            rw (h, delete_rows)
              (record {
                same_rows = own_tables-delete_from names w.tables;
                same_workspace = find-others w.workspaces;
                objects_stay = λ ref n k. k;
              })
      ]

-- an object that a tenant's row needs is live
own-is_live :
    (j : ℕ) (ref : String) (ts : List Table)
    → is_live (own_tables j ts) ref ≡ true
    → is_live ts ref ≡ true
own-is_live j ref [] h = h
own-is_live j ref (t ∷ ts) h = ground (arith, h, any-keep t.rows, own-is_live j ref ts)
  where
    any-keep :
        (rows : List Row)
        → any (λ (r : Row). has_name r.needs ref) (keep (of_tenant j) rows) ≡ true
        → any (λ (r : Row). has_name r.needs ref) rows ≡ true
    any-keep [] k = k
    any-keep (r ∷ rs) k = elim (Bool-cases (of_tenant j r)) [
      | inl e ↦ ground (arith, any-keep rs, rw e at k)
      | inr e ↦ ground (arith, any-keep rs (rw e at k))
    ]

without-others :
    (ref gone : String) (objects : List String)
    → ref ≢ gone
    → has_name objects ref ≡ true
    → has_name (without gone objects) ref ≡ true
without-others ref gone (o ∷ os) ne h = elim (Bool-cases (str_eq o gone)) [
  | inl e ↦
      rw e (without-others ref gone os ne (ground (arith, h, eq_iff o gone, eq_iff o ref, ne)))
  | inr e ↦ rw e (ground (arith, h, without-others ref gone os ne))
]
without-others ref gone [] ne h = h

-- The sweep deletes no object that a row keeps alive, whether it ends or the store stops it.
sweep-live :
    (refuses : String → Bool) (tables : List Table) (ref : String)
    → is_live tables ref ≡ true
    → (refs objects : List String) → has_name objects ref ≡ true
    → has_name (sweep refuses tables refs objects).1 ref ≡ true
unfolding sweep
sweep-live refuses tables ref live [] objects h = h
sweep-live refuses tables ref live (r ∷ rs) objects h = elim (Bool-cases (is_live tables r)) [
  | inl e ↦ rw e (sweep-live refuses tables ref live rs objects h)
  | inr e ↦ elim (Bool-cases (refuses r)) [
    | inl g ↦ rw (e, g) h
    | inr g ↦
        rw (e, g)
          (sweep-live refuses tables ref live rs (without r objects) (
            without-others ref r objects (λ q. absurd (cc (sym live ∙ ap (is_live tables) q ∙ e)))
              h))
  ]
]

module _ (out : Outside) (item : Deletion) (j : ℕ) where
  github_removes-Untouched : (w : World) → Untouched j w (github_removes out item w).1
  unfolding github_removes
  github_removes-Untouched w = elim (Bool-cases item.repo_deleted) [
    | inl e ↦ rw (e, github_removes) (untouched j w)
    | inr e ↦ elim (Option-cases (ineligible item.workspace_id w)) [
      | inr (reason, n) ↦ rw (e, n, github_removes) (untouched j w)
      | inl n ↦ elim (Option-cases out.remove_repo) [
        | inl g ↦ rw (e, n, g, github_removes) (untouched j w)
        | inr (remove, g) ↦ elim (Result-cases (remove item.repo)) [
          | inr (bad, r) ↦ rw (e, n, g, r, github_removes) (untouched j w)
          | inl (said, r) ↦
              rw (e, n, g, r, github_removes)
                (record { same_rows = refl; same_workspace = refl; objects_stay = λ ref n h. h })
        ]
      ]
    ]
  ]

  record_repository-Untouched :
      (receipt : Receipt) (said : Option String) (w : World)
      → Untouched j w (record_repository out item receipt said w).1
  unfolding record_repository
  record_repository-Untouched receipt none w = untouched j w
  record_repository-Untouched receipt (some said) w = set_request-Untouched j item.id _ w

  -- A step that leaves the workspace alone, after steps that do.
  then_step :
      {A B : Type 0} (w : World) (o : Result A × World) (step : A → World → Result B × World)
      → Untouched j w o.1
      → ((a : A) (v : World) → Untouched j v (step a v).1)
      → Untouched j w (and_then o step).1
  then_step w o step before after =
      and_then-keeps (Untouched j w) o step before
        (λ a e. then-Untouched j w o.1 _ before (after a o.1))

  drop_indexes-Untouched :
      (receipt : Receipt) (w : World) → Untouched j w (drop_indexes out item receipt w).1
  unfolding drop_indexes
  drop_indexes-Untouched receipt w = elim (Result-cases (out.drop_indexes item.workspace_id)) [
    | inl (n, e) ↦ rw (e, drop_indexes) (untouched j w)
    | inr (bad, e) ↦ rw (e, drop_indexes) (untouched j w)
  ]

  forget-Untouched : (receipt : Receipt) (w : World) → Untouched j w (forget out item receipt w).1
  unfolding forget
  forget-Untouched receipt w = elim (Result-cases (out.forget item.workspace_id)) [
    | inl (was, e) ↦ rw (e, forget) (untouched j w)
    | inr (bad, e) ↦ rw (e, forget) (untouched j w)
  ]

  remove_rows-Untouched :
      item.workspace_id ≢ j
      → (receipt : Receipt) (w : World) → Untouched j w (remove_rows out item receipt w).1
  unfolding remove_rows
  remove_rows-Untouched other receipt w = elim (Bool-cases item.rows_deleted) [
    | inl e ↦ rw (e, remove_rows) (untouched j w)
    | inr e ↦
        rw (e, remove_rows) (delete_rows-Untouched item.workspace_id j other item.id receipt w)
  ]

  remove_evidence-Untouched :
      (receipt : Receipt) (w : World) → Untouched j w (remove_evidence out item receipt w).1
  unfolding remove_evidence
  remove_evidence-Untouched receipt w = elim (Option-cases out.evidence) [
    | inl e ↦ rw (e, remove_evidence) (untouched j w)
    | inr (refuses, e) ↦
        let swept = sweep refuses w.tables (garbage_of out item w) w.objects in
        let cleaned : Untouched j w (record w { objects = swept.1 }) = record {
          same_rows = refl;
          same_workspace = refl;
          objects_stay = λ ref n h.
              sweep-live refuses w.tables ref (own-is_live j ref w.tables n) (garbage_of out item w)
                w.objects h;
        } in
        elim (Result-cases swept.0) [
          | inr (bad, r) ↦ rw (e, r, remove_evidence) cleaned
          | inl (n, r) ↦
              rw (e, r, remove_evidence)
                (then-Untouched j w (record w { objects = swept.1 }) _ cleaned
                  (set_request-Untouched j item.id _ (record w { objects = swept.1 })))
        ]
  ]

  run-Untouched : item.workspace_id ≢ j → (w : World) → Untouched j w (run out item w).1
  unfolding run remove_repository
  run-Untouched other w =
      let named =
        then_step w (github_removes out item w) (record_repository out item item.receipt)
          (github_removes-Untouched w)
          (λ said v. record_repository-Untouched item.receipt said v) in
      let emptied =
        then_step w (remove_repository out item item.receipt w) (remove_rows out item) named
          (remove_rows-Untouched other) in
      let dropped =
        then_step w (through_rows out item w) (drop_indexes out item) emptied
          drop_indexes-Untouched in
      let swept =
        then_step w (through_indexes out item w) (remove_evidence out item) dropped
          remove_evidence-Untouched in
      then_step w (through_evidence out item w) (forget out item) swept forget-Untouched

first-In : {A : Type 0} (a : A) (xs : List A) → first xs ≡ some a → In a xs
first-In a [] h = absurd (cc h)
first-In a (x ∷ xs) h = inl (ground (arith, h))

-- A claim changes nothing, or marks an open request.
pub claim-cases :
    (now : ℕ) (locked : ℕ → Bool) (w : World)
    → (claim now locked w ≡ (none, w))
      ⊎ ((r : Deletion) × In r w.requests
          × (is_open r.status ≡ true)
          × (claim now locked w ≡ (some (begun now r), set_request r.id (begun now) w)))
unfolding claim
claim-cases now locked w =
    elim (Option-cases
      (first (sort_by older (keep (λ r. is_due now r && not (locked r.id)) w.requests)))) [
        | inl n ↦ inl (rw (n, claim) refl)
        | inr (r, n) ↦
            let (m, good) = In-keep _ r w.requests (In-sort_by older r _ (first-In r _ n)) in
            inr (r, m, ground (arith, good), rw (n, claim) refl)
      ]

fail-Untouched :
    (j now : ℕ) (item : Deletion) (e : Error) (w : World) → Untouched j w (fail now item e w)
unfolding fail
fail-Untouched j now item e w = elim (Option-cases (find (has_id item.id) w.requests)) [
  | inl n ↦ rw (n, fail) (untouched j w)
  | inr (r, n) ↦ rw (n, fail) (set_request-Untouched j item.id _ w)
]

carry_out-Untouched :
    (out : Outside) (now : ℕ) (item : Deletion) (j : ℕ)
    → item.workspace_id ≢ j
    → (w : World) → Untouched j w (carry_out out now item w).1
unfolding carry_out finish
carry_out-Untouched out now item j other w =
    let ran = run-Untouched out item j other w in
    let after = (run out item w).1 in
    elim (Result-cases (run out item w).0) [
      | inr (bad, g) ↦
          rw (g, carry_out) (then-Untouched j w after _ ran (fail-Untouched j now item bad after))
      | inl (receipt, g) ↦
          rw (g, carry_out)
            (then-Untouched j w after _ ran (set_request-Untouched j item.id _ after))
    ]

-- A turn of the worker that carries out deletions leaves every workspace without an open request as it
-- was, however the turn ends: the workspace's row and all its rows in every table stay, and so does
-- every stored object that one of these rows needs.
pub turn-Untouched :
    (out : Outside) (acquired : Bool) (now : ℕ) (locked : ℕ → Bool) (w : World) (j : ℕ)
    → any (is_open_for j) w.requests ≡ false
    → Untouched j w (turn out acquired now locked w).1
unfolding turn
turn-Untouched out acquired now locked w j none_open =
    elim (Bool-cases (pending now w && acquired)) [
      | inr e ↦ rw (e, turn) (untouched j w)
      | inl e ↦ elim (claim-cases now locked w) [
        | inl n ↦ rw (e, n, turn) (untouched j w)
        | inr (r, m, alive, n) ↦
            let closed = All-In _ r w.requests (any-false (is_open_for j) w.requests none_open) m in
            let other : r.workspace_id ≢ j =
              λ q. absurd (ground (arith, closed, alive, (==_iff r.workspace_id j).1 q)) in
            let kept : (begun now r).workspace_id ≡ r.workspace_id = unfold begun in refl in
            let claimed = set_request r.id (begun now) w in
            rw (e, n, turn)
              (then-Untouched j w claimed _ (set_request-Untouched j r.id (begun now) w)
                (carry_out-Untouched out now (begun now r) j (λ q. other (sym kept ∙ q)) claimed))
      ]
    ]
