-- ===== src/Ops/Erasure/Course.antt =====
-- Whole runs of the operations on erasure requests.
use stigmergy.Prelude.{
  ℕ, ◌≡◌, refl, sym, ap, ◌∙◌, String, Bool, true, false, Option, List, ==_iff, any, In,
}
use stigmergy.Kernel.Tenancy.{Session}
use stigmergy.Capture.Schema.{is_open}
use stigmergy.Capture.Json.{Fields}
use stigmergy.Ops.Erasure.{
  Request, request, has_id, update, claim, record_names, record_rewrite, mark_pushed, clear_garbage,
  finish, fail, failed_row,
}
use stigmergy.Ops.Erasure.OneOpen.{IsValid, Moves, update-IsValid, request-IsValid, claim-IsValid}

-- An operation on the requests, by any session at any time. A new request has a new id, and a failure
-- is recorded for a request that is open.
pub data Step (rows : List Request) : List Request → Type 0 where
  ask :
      (tenant : Option ℕ) (groups : List String) (id now : ℕ) (name actor : String)
      → any (has_id id) rows ≡ false
      → Step rows (request tenant groups id now name actor rows).1
  take_due : (c : Session) (now : ℕ) (locked : ℕ → Bool) → Step rows (claim c now locked rows).1
  keep_names : (c : Session) (i : ℕ) (names : List String) → Step rows (record_names c i names rows)
  keep_rewrite :
      (c : Session) (i : ℕ) (old_head new_head : String) (rewrite : Fields)
      → Step rows (record_rewrite c i old_head new_head rewrite rows)
  push : (c : Session) (i : ℕ) → Step rows (mark_pushed c i rows)
  clean : (c : Session) (i : ℕ) → Step rows (clear_garbage c i rows)
  succeed : (c : Session) (now i : ℕ) (receipt : Fields) → Step rows (finish c now i receipt rows)
  note_failure :
      (c : Session) (now i : ℕ) (error : String) (final : Bool)
      → ((a : Request) → In a rows → a.id ≡ i → is_open a.status ≡ true)
      → Step rows (fail c now i error final rows)

pub data Course (rows : List Request) : List Request → Type 0 where
  begun : Course rows rows
  then_step : {mid end : List Request} → Course rows mid → Step mid end → Course rows end

failed_Moves :
    (now : ℕ) (final : Bool) (error : String) (a : Request)
    → is_open a.status ≡ true
    → Moves a (failed_row now final error a)
unfolding failed_row
failed_Moves now true error a h = record {
  opens_none = λ o. h;
  same_tenant = refl;
  same_layer = refl;
  same_id = refl;
}
failed_Moves now false error a h = record {
  opens_none = λ o. h;
  same_tenant = refl;
  same_layer = refl;
  same_id = refl;
}

failed_id :
    (now : ℕ) (final : Bool) (error : String) (a : Request)
    → (failed_row now final error a).id ≡ a.id
unfolding failed_row
failed_id now true error a = refl
failed_id now false error a = refl

-- an UPDATE that touches neither status, tenant, layer nor id
noted :
    (c : Session) (i : ℕ) (f : Request → Request) (rows : List Request)
    → ((a : Request) → Moves a (f a))
    → IsValid rows
    → IsValid (update c (has_id i) f rows)
noted c i f rows m v = update-IsValid c (has_id i) f rows (λ a. (m a).same_id) (λ a n h. m a) v

still :
    {r w : Request}
    → w.status ≡ r.status
    → w.tenant_id ≡ r.tenant_id
    → w.layer ≡ r.layer
    → w.id ≡ r.id
    → Moves r w
still s t l i = record {
  opens_none = λ o. ap is_open (sym s) ∙ o;
  same_tenant = t;
  same_layer = l;
  same_id = i;
}

Step-IsValid : {rows end : List Request} → Step rows end → IsValid rows → IsValid end
unfolding record_names record_rewrite mark_pushed clear_garbage finish fail
Step-IsValid {rows} (ask tenant groups id now name actor fresh) v =
    request-IsValid tenant groups id now name actor rows fresh v
Step-IsValid {rows} (take_due c now locked) v = claim-IsValid c now locked rows v
Step-IsValid {rows} (keep_names c i names) v = noted c i _ rows (λ a. still refl refl refl refl) v
Step-IsValid {rows} (keep_rewrite c i old_head new_head rewrite) v =
    noted c i _ rows (λ a. still refl refl refl refl) v
Step-IsValid {rows} (push c i) v = noted c i _ rows (λ a. still refl refl refl refl) v
Step-IsValid {rows} (clean c i) v = noted c i _ rows (λ a. still refl refl refl refl) v
Step-IsValid {rows} (succeed c now i receipt) v =
    noted c i _ rows
      (λ a. record {
        opens_none = λ o. absurd (cc o);
        same_tenant = refl;
        same_layer = refl;
        same_id = refl;
      })
      v
Step-IsValid {rows} (note_failure c now i error final alive) v =
    update-IsValid c (has_id i) (failed_row now final error) rows (failed_id now final error)
      (λ a m h. failed_Moves now final error a (alive a m ((==_iff a.id i).0 h))) v

-- Whatever operations run, in whatever order, from a valid table, where a new request has a new id and
-- a failure is recorded only for an open request: no two open requests are for one layer of one
-- tenant, and no id stands twice.
pub Course-IsValid : {rows end : List Request} → Course rows end → IsValid rows → IsValid end
Course-IsValid begun v = v
Course-IsValid (then_step run s) v = Step-IsValid s (Course-IsValid run v)
