-- ===== src/Tests/Queue.antt =====
-- The queue of src/stigmergy/capture/queue.py on one tenant with one capture.
use stigmergy.Prelude.{
  arith, ℕ, ◌≡◌, ◌≢◌, refl, Bool, true, false, inl, inr, none, some, [], ◌∷◌, codes, ◌⊎◌, eq_iff,
}
use stigmergy.Kernel.Tenancy.{Session}
use stigmergy.Capture.Json.{num, str, obj, Fields, end, field, put, value_eq}
use stigmergy.Capture.Json.Equality.{IsCleanFields}
use stigmergy.Capture.Queue.Idempotent.{IsMeant}
use stigmergy.Capture.Schema.{landed, capture, delete, Item, Db, explicit}
use stigmergy.Capture.Queue.Base.{ok, err, redelivered, not_owned, key_reused}
use stigmergy.Capture.Queue.Submit.{Submission, fresh_item, enqueue}
use stigmergy.Capture.Queue.Claim.{claimed, claim_next}
use stigmergy.Capture.Queue.Settle.{
  Landing, landed_row, finish_landed, Failure, failed_row, fail_or_retry,
}
use stigmergy.Capture.Queue.Invariant.{IsValid}
use stigmergy.Capture.Queue.Steps.{
  submit, claim, here, next, Reach-IsValid, enqueue-IsValid, claim_next-IsValid,
}
use stigmergy.Capture.Queue.Row.{row_at}
use stigmergy.Capture.Queue.Fencing.{Holds, landed_once, landed_Holds, claim_fences}
use stigmergy.Capture.Queue.Holder.{IsHeld, IsLost, IsAccepted, settled_by_holder}
use stigmergy.Capture.Queue.Submitted.{SameSubmission}
use stigmergy.Capture.Queue.Turns.{turns}
use stigmergy.Capture.Queue.History.{Kept, SameLanding, landed_final, isolated}
use stigmergy.Capture.Queue.Resent.{enqueue_again}

abbrev acme : Session
acme = record { tenant = some 1; platform = false }

abbrev pub writer : Session
writer = record { tenant = none; platform = true }

abbrev pub free : ℕ → Bool
free i = false

abbrev empty : Db
empty = record {
  items = [];
  tenants =
      record { id = 1; active = true; last_claimed_at = none }
      ∷ record { id = 2; active = true; last_claimed_at = none }
      ∷ [];
  erasures = [];
  wakes = 0;
}

empty-IsValid : IsValid empty
empty-IsValid = record { sound = tt; ids = tt; keys = tt }

abbrev sent : Fields
sent =
    field "capture_id" (num 7) (
      field "origin" (obj (field "captured_at" (str "today") (field "adapter" (str "mcp") end)))
        end)

abbrev note : Submission
note = record {
  operation = capture;
  item_id = 7;
  idempotency_key = "k";
  subject = "ann";
  actor = end;
  acl = some ("sales" ∷ []);
  request = sent;
  layer_decision = some explicit;
  layer_probabilities = none;
}

abbrev waiting : Item
waiting = fresh_item 1 0 note

abbrev pub queue_db : Db
queue_db = (enqueue acme 0 note empty).1

pub queue_db-IsValid : IsValid queue_db
queue_db-IsValid = enqueue-IsValid acme 0 note empty empty-IsValid

-- claimed at time 6 with a budget of sixty seconds
abbrev pub running : Item
running = claimed 6 60 waiting

abbrev pub running_db : Db
running_db = (claim_next writer 5 6 free 60 queue_db).1

claim_runs : claim_next writer 5 6 free 60 queue_db ≡ (some running, running_db)
unfolding claim_next enqueue
claim_runs = refl

running-Holds : Holds acme 7 running running_db
unfolding claim_next enqueue
running-Holds = record {
  valid = claim_next-IsValid writer queue_db queue_db-IsValid 5 6 free 60;
  row = refl;
  seen = refl;
}

abbrev landing : Landing
landing = record {
  source_path = "sources/2026/08/7.md";
  commit_sha = "abc";
  change_id = some 9;
  extraction = end;
  report = end;
}

abbrev failure : Failure
failure = record {
  category = codes "model";
  error = codes "no  answer";
  retryable = true;
  fresh_budget = false;
}

abbrev landed_db : Db
landed_db = (finish_landed acme 8 7 1 6 landing running_db).1

Reach-IsValid_example : IsValid running_db
Reach-IsValid_example =
    Reach-IsValid (next (next here (submit acme 0 note)) (claim writer 5 6 free 60)) empty-IsValid

settled_by_holder_example :
    (IsHeld 1 5 running
      × IsAccepted 7
          (landed_row 8 landing running)
          running_db
          (finish_landed acme 8 7 1 5 landing running_db)
      × IsAccepted 7
          (failed_row 8 true failure running)
          running_db
          (fail_or_retry acme 8 7 1 5 failure running_db))
    ⊎ (IsLost 1 5 running
        × (finish_landed acme 8 7 1 5 landing running_db ≡ (err redelivered, running_db))
        × (fail_or_retry acme 8 7 1 5 failure running_db ≡ (err redelivered, running_db)))
unfolding claimed fresh_item
settled_by_holder_example =
    settled_by_holder acme 8 7 1 5 running running_db running-Holds landing failure

landed_once_example :
    (finish_landed acme 9 7 1 6 landing landed_db ≡ (err (not_owned landed), landed_db))
    × (fail_or_retry acme 9 7 1 6 failure landed_db ≡ (err (not_owned landed), landed_db))
unfolding claimed fresh_item
landed_once_example =
    landed_once acme 8 7 1 6 running running_db running-Holds landing refl 9 landing failure

claim_fences_example :
    ((finish_landed writer 8 7 1 6 landing running_db).0 ≡ ok (landed_row 8 landing running))
    × ((finish_landed writer 8 7 1 5 landing running_db ≡ (err redelivered, running_db))
        × (fail_or_retry writer 8 7 1 5 failure running_db ≡ (err redelivered, running_db)))
unfolding claim_next enqueue
claim_fences_example =
    claim_fences writer 5 6 free 60 running queue_db queue_db-IsValid refl 1 5 8 landing failure
      (inr (λ h. absurd (omega (arith, h))))

landed_final_example : Kept SameLanding 7 (landed_row 8 landing running) landed_db
unfolding claim_next enqueue finish_landed
landed_final_example =
    landed_final {db = landed_db} here 7 (landed_row 8 landing running)
      (landed_Holds acme 8 7 1 6 running running_db running-Holds landing refl).valid refl refl

isolated_example :
    row_at 7 (claim_next (record { tenant = some 2; platform = false }) 5 6 free 60 queue_db).1
    ≡ some waiting
unfolding enqueue
isolated_example =
    isolated (claim (record { tenant = some 2; platform = false }) 5 6 free 60) 7 waiting
      queue_db-IsValid refl refl

abbrev clean_note : Submission
clean_note = record note { request = field "capture_id" (num 7) (field "text" (str "hello") end) }

abbrev changed_note : Submission
changed_note = record note {
  request = field "capture_id" (num 8) (field "text" (str "goodbye") end);
}

abbrev clean_db : Db
clean_db = (enqueue acme 0 clean_note empty).1

text_counts : IsMeant "text"
text_counts = (
  λ h. absurd (ground (arith, h, eq_iff "text" "capture_id")),
  λ h. absurd (ground (arith, h, eq_iff "text" "operation_id")),
  λ h. absurd (ground (arith, h, eq_iff "text" "idempotency_key")),
  λ h. absurd (ground (arith, h, eq_iff "text" "origin")),
)

-- sent again after the first was claimed
enqueue_again_example :
    let end = (claim_next writer 5 6 free 60 clean_db).1 in
    let ids =
      put "capture_id"
        (num 9)
        (put "operation_id" (num 10) (put "idempotency_key" (str "k") clean_note.request)) in
    (r : Item) × (row_at 7 end ≡ some r)
    × SameSubmission (fresh_item 1 0 clean_note) r
    × (enqueue acme 9 (record changed_note { operation = capture; request = ids }) end
        ≡ (ok (r, false), end))
    × (enqueue acme 9 (record changed_note { operation = delete }) end ≡ (err key_reused, end))
    × (enqueue acme 9 changed_note end ≡ (err key_reused, end))
enqueue_again_example =
    enqueue_again 1 0 clean_note empty (claim_next writer 5 6 free 60 clean_db).1 empty-IsValid
      (unfold enqueue in refl) (next here (claim writer 5 6 free 60))
      (unfold IsCleanFields in (refl, tt, (refl, tt, tt))) 9 changed_note refl refl (num 9) (num 10)
      (str "k") delete (λ h. absurd (cc h)) "text" (str "hello") text_counts refl
      (unfold value_eq in refl)

-- a second tenant's capture, queued later
abbrev shared_db : Db
shared_db =
    (enqueue (record { tenant = some 2; platform = false }) 1 (record note { item_id = 8 })
      queue_db).1

abbrev later : Item
later = fresh_item 2 1 (record note { item_id = 8 })

shared_db-IsValid : IsValid shared_db
shared_db-IsValid =
    enqueue-IsValid (record { tenant = some 2; platform = false }) 1 (record note { item_id = 8 })
      queue_db queue_db-IsValid

turns_example : (claimed 7 60 later).tenant_id ≢ running.tenant_id
unfolding claim_next enqueue
turns_example =
    turns writer 5 6 free 60 shared_db running (claim_next writer 5 6 free 60 shared_db).1
      shared_db-IsValid refl 6 7 free 60 (claimed 7 60 later) later refl (inr (inl refl)) refl refl
      refl
