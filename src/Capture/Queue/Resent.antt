-- ===== src/Capture/Queue/Resent.antt =====
-- Submitting again under the key of an accepted submission, at any later time.
use stigmergy.Prelude.{
  ℕ, String, ◌≡◌, ◌≢◌, refl, sym, ap, ◌∙◌, Bool, true, false, ◌&&◌, ◌||◌, not, inl, inr, Option,
  none, some, List, [], ◌∷◌, ◌++◌, arith, ◌==◌, ==_refl, ==_iff, str_eq, eq_iff, if◌then◌else◌,
  Bool-cases, Option-cases, any, find, All, any-false, &&-elim, In, find-some-In, find-none,
  AllDistinct-eq,
}
use stigmergy.Kernel.Tenancy.{Session, is_tenant}
use stigmergy.Capture.Json.{Value, get, put}
use stigmergy.Capture.Json.Equality.{IsCleanFields, IsOther}
use stigmergy.Capture.Schema.{Operation, capture, delete, entity, garden, operation_eq, Item, Db}
use stigmergy.Capture.Queue.Base.{key_reused, Result, ok, err, select, has_id}
use stigmergy.Capture.Queue.Submit.{
  has_key, reused, find_idempotent, Submission, fresh_item, conflicts, existing, enqueue_for,
  enqueue,
}
use stigmergy.Capture.Queue.Invariant.{IsValid, key_of}
use stigmergy.Capture.Queue.Steps.{Reach, Reach-IsValid, enqueue-IsValid, conflicts_of_key}
use stigmergy.Capture.Queue.Row.{row_at}
use stigmergy.Capture.Queue.Submitted.{SameSubmission, Reach_stays}
use stigmergy.Capture.Queue.Idempotent.{
  equivalent_request_resent, equivalent_request_other, IsMeant,
}

-- the session of one tenant
abbrev pub alone : ℕ → Session
alone t = record { tenant = some t; platform = false }

existing-ne : (o : Result (Option Item)) (r : Item) → existing o ≢ ok (r, true)
existing-ne (ok (some z)) r e = cc
existing-ne (ok none) r e = cc
existing-ne (err x) r e = cc

find-snoc :
    (p : Item → Bool) (xs : List Item) (y : Item)
    → All (λ x. p x ≡ false) xs
    → p y ≡ true
    → find p (xs ++ y ∷ []) ≡ some y
find-snoc p [] y h q = rw q
find-snoc p (x ∷ xs) y h q = rw h.0 (find-snoc p xs y h.1 q)

any-of-In : (p : Item → Bool) (x : Item) (xs : List Item) → In x xs → p x ≡ true → any p xs ≡ true
any-of-In p x [] m h = absurd m
any-of-In p x (y ∷ ys) (inl e) h = ground arith
any-of-In p x (y ∷ ys) (inr m) h = ground (arith, any-of-In p x ys m h)

-- An accepted submission stands in the table.
accepted_row :
    (t now : ℕ) (s : Submission) (db : Db)
    → (enqueue (alone t) now s db).0 ≡ ok (fresh_item t now s, true)
    → row_at s.item_id (enqueue (alone t) now s db).1 ≡ some (fresh_item t now s)
unfolding enqueue enqueue_for
accepted_row t now s db e = elim (Bool-cases (any (conflicts t s) db.items)) [
  | inl h ↦ absurd (existing-ne _ _ (rw (h, enqueue_for) at e))
  | inr h ↦ elim (Bool-cases (any (has_id s.item_id) db.items)) [
    | inl d ↦ absurd (cc (rw d at (rw (h, enqueue_for) at e)))
    | inr d ↦
        rw (h, enqueue_for)
          (rw d (
            find-snoc (has_id s.item_id) db.items (fresh_item t now s)
              (any-false (has_id s.item_id) db.items d) (==_refl s.item_id)))
  ]
]

operation_eq_refl : (op : Operation) → operation_eq op op ≡ true
operation_eq_refl capture = refl
operation_eq_refl delete = refl
operation_eq_refl entity = refl
operation_eq_refl garden = refl

operation_eq_other : (a b : Operation) → b ≢ a → operation_eq a b ≡ false
operation_eq_other a b ne = elim (Bool-cases (operation_eq a b)) [
  | inl e ↦ absurd (ne (equal a b e))
  | inr e ↦ e
]
  where
    equal : (a b : Operation) → operation_eq a b ≡ true → b ≡ a
    equal capture capture e = refl
    equal delete delete e = refl
    equal entity entity e = refl
    equal garden garden e = refl
    equal a b e = absurd (ground arith)

key_of-conflicts :
    (t : ℕ) (s : Submission) (r : Item)
    → conflicts t s r ≡ true
    → key_of r ≡ (t, s.subject, s.idempotency_key)
key_of-conflicts t s r h =
    let (a, b) = &&-elim (r.tenant_id == t) _ h in
    let (c, d) = &&-elim (str_eq r.submitted_by s.subject) _ b in
    λ i. (
      (==_iff r.tenant_id t).0 a i,
      (eq_iff r.submitted_by s.subject).0 c i,
      (eq_iff r.idempotency_key s.idempotency_key).0 d i,
    )

-- What a session of one tenant finds by a key is what the key conflicts with.
conflicts_seen :
    (t : ℕ) (s : Submission) (r : Item)
    → (is_tenant (some t) r.tenant_id && has_key s.subject s.idempotency_key r) ≡ conflicts t s r
conflicts_seen t s r = ground arith

module _ (t now : ℕ) (s : Submission) (db : Db) (v : IsValid db) (r : Item) (m : In r db.items)
    (key : key_of r ≡ (t, s.subject, s.idempotency_key)) where
  -- The key finds the one row that has it.
  select_key : select (alone t) (has_key s.subject s.idempotency_key) db ≡ some r
  select_key = elim (Option-cases (select (alone t) (has_key s.subject s.idempotency_key) db)) [
    | inl e ↦
        absurd (cc (find-none _ r db.items e m, conflicts_seen t s r ∙ conflicts_of_key t s r key))
    | inr (z, e) ↦
        let (n, h) = find-some-In _ z db.items e in
        e
        ∙ ap some (
            AllDistinct-eq key_of db.items z r v.keys n m
              (key_of-conflicts t s z (sym (conflicts_seen t s z) ∙ h) ∙ sym key))
  ]

  answer :
      enqueue (alone t) now s db
      ≡ (if reused s.operation s.request r then err key_reused else ok (r, false), db)
  unfolding enqueue enqueue_for find_idempotent
  answer =
      let busy = any-of-In (conflicts t s) r db.items m (conflicts_of_key t s r key) in
      rw (busy, enqueue_for, find_idempotent, select_key)
        (elim (Bool-cases (reused s.operation s.request r)) [ inl k ↦ rw k | inr k ↦ rw k ])

orb_true : (b : Bool) → (b || true) ≡ true
orb_true b = ground arith

-- A submission is kept for good: whatever operations of the queue run after it was accepted, its
-- row stays in the table. From then on, whenever its submitter sends its key again, on a session of
-- that tenant: the same operation with the same request under new ids is given the row as it is
-- then, as not created; another operation, and a request that lacks a key of the first or has
-- another value there, are refused; and nothing is queued or changed. The table is valid at first,
-- and no object in the first request holds a key twice. The origin and the ids are not keys in this
-- sense.
pub enqueue_again :
    (t now : ℕ) (s : Submission) (db end : Db)
    → IsValid db
    → (enqueue (alone t) now s db).0 ≡ ok (fresh_item t now s, true)
    → Reach (enqueue (alone t) now s db).1 end
    → IsCleanFields s.request
    → (now' : ℕ) (s' : Submission) → s'.subject ≡ s.subject
    → s'.idempotency_key ≡ s.idempotency_key
    → (v w u : Value) (op : Operation) → op ≢ s.operation
    → (k : String) (x : Value) → IsMeant k
    → get k s.request ≡ some x
    → IsOther x (get k s'.request)
    → let ids = put "capture_id" v (put "operation_id" w (put "idempotency_key" u s.request)) in
      let same = record s' { operation = s.operation; request = ids } in
      let other_operation = record s' { operation = op } in
      (r : Item) × (row_at s.item_id end ≡ some r)
      × SameSubmission (fresh_item t now s) r
      × (enqueue (alone t) now' same end ≡ (ok (r, false), end))
      × (enqueue (alone t) now' other_operation end ≡ (err key_reused, end))
      × (enqueue (alone t) now' s' end ≡ (err key_reused, end))
unfolding fresh_item
enqueue_again t now s db end valid e run clean now' s' who key v w u op ne k x meant h d =
    let (r, there, kept) =
      Reach_stays run s.item_id (fresh_item t now s) (accepted_row t now s db e) in
    let later = Reach-IsValid run (enqueue-IsValid (alone t) now s db valid) in
    let m = (find-some-In (has_id s.item_id) r end.items there).0 in
    let mine : key_of r ≡ (t, s'.subject, s'.idempotency_key) =
      ap (λ z. z.0) kept ∙ λ i. (t, sym who i, sym key i) in
    let operation : r.operation ≡ s.operation = ap (λ z. z.1) kept in
    let request : r.request ≡ s.request = ap (λ z. z.2) kept in
    let ids = put "capture_id" v (put "operation_id" w (put "idempotency_key" u s.request)) in
    let same = record s' { operation = s.operation; request = ids } in
    let again : reused s.operation ids r ≡ false =
      rw (operation, request, operation_eq_refl, equivalent_request_resent s.request v w u clean)
        refl in
    let changed : reused op s'.request r ≡ true =
      rw (operation, operation_eq_other s.operation op ne) refl in
    let different : reused s'.operation s'.request r ≡ true =
      rw (request, equivalent_request_other k x s.request s'.request meant h d)
        (orb_true (not (operation_eq r.operation s'.operation))) in
    (
      r,
      there,
      kept,
      answer t now' same end later r m mine ∙ rw again refl,
      answer t now' (record s' { operation = op }) end later r m mine ∙ rw changed refl,
      answer t now' s' end later r m mine ∙ rw different refl,
    )
