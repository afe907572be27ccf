-- ===== src/Tests/Ops.antt =====
-- The requests of src/stigmergy/ops/erasure.py: one whose rewrite is recorded.
use stigmergy.Prelude.{ℕ, ◌≡◌, refl, Bool, true, false, inr, arith, eq_iff, none, some, [], ◌∷◌}
use stigmergy.Kernel.Tenancy.{Session}
use stigmergy.Capture.Schema.{running, waiting}
use stigmergy.Ops.Erasure.{request, Request, claim, settle_failure, latest, due, new_request}
use stigmergy.Ops.Erasure.OneOpen.{IsValid}
use stigmergy.Ops.Erasure.Course.{ask, take_due, begun, then_step, Course-IsValid}
use stigmergy.Ops.Erasure.Pushed.{row_at, StaysOpen, claim-StaysOpen, settle_failure-StaysOpen}

abbrev acme : Session
acme = record { tenant = some 1; platform = false }

abbrev rewritten : Request
rewritten = record (new_request 1 7 100 "finance" "ana") {
  status = running;
  attempts = 3;
  new_head = "abc";
}

abbrev free : ℕ → Bool
free i = false

claim-StaysOpen_example :
    (w : Request) × (row_at 7 (claim acme 500 free (rewritten ∷ [])).1 ≡ some w)
    × StaysOpen rewritten w
claim-StaysOpen_example =
    claim-StaysOpen acme 500 7 (rewritten ∷ []) rewritten (unfold new_request in refl) free
      (unfold new_request in refl) refl

settle_failure-StaysOpen_example :
    let rows' = settle_failure acme 500 7 "finance" 3 none "timeout" (rewritten ∷ []) in
    (w : Request) × (row_at 7 rows' ≡ some w)
    × (w.status ≡ waiting)
    × StaysOpen rewritten w
    × (w.error ≡ "timeout")
    × (w.names ≡ [])
    × (w.garbage ≡ [])
    × (w.attempts ≡ 3)
    × (due acme 600 rows' w ≡ true)
unfolding new_request
settle_failure-StaysOpen_example =
    settle_failure-StaysOpen acme 500 7 (rewritten ∷ []) rewritten (unfold new_request in refl) 3
      none "timeout" (unfold new_request in refl) (unfold latest new_request in refl)
      (inr
        (unfold new_request in λ h. absurd (ground (arith, eq_iff "abc" "")), λ h. absurd (cc h)))
      600 (unfold new_request in omega arith)

Course-IsValid_example :
    IsValid (claim acme 500 free (request (some 1) ("finance" ∷ []) 7 100 "finance" "ana" []).1).1
Course-IsValid_example =
    Course-IsValid
      (then_step (then_step begun (ask (some 1) ("finance" ∷ []) 7 100 "finance" "ana" refl))
        (take_due acme 500 free))
      (record { one_open = tt; ids = tt })
