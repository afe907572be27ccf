-- ===== src/Capture/Queue/Idempotent.antt =====
-- When two requests mean the same (`_equivalent_request` of src/stigmergy/capture/queue.py).
use stigmergy.Prelude.{
  String, ◌≡◌, refl, ap, ◌∙◌, true, false, Option, none, some, arith, ◌≢◌, eq_iff, subst, sym,
}
use stigmergy.Capture.Json.{Value, obj, Fields, end, field, get, pop, put}
use stigmergy.Capture.Json.Equality.{
  IsClean, IsCleanFields, dict_eq_self, pop-IsCleanFields, put-IsCleanFields, get-IsClean, pop-pop,
  pop_comm, get-pop_other, IsOther, dict_eq_other,
}
use stigmergy.Capture.Queue.Submit.{semantic, equivalent_request, with_origin, origin_of}

pop_thrice :
    (k o c : String) (r : Fields)
    → pop k (pop o (pop c (pop c (pop o (pop k r))))) ≡ pop k (pop o (pop c r))
pop_thrice k o c r = cc (
  pop-pop c (pop o (pop k r)),
  pop_comm c o (pop k r),
  pop-pop o (pop c (pop k r)),
  pop_comm c k r,
  pop_comm o k (pop c r),
  pop-pop k (pop o (pop c r)),
)

-- Exchanging the ids that each submission makes anew does not change what a request means.
semantic-put_ids :
    (v w u : Value) (r : Fields)
    → semantic (put "capture_id" v (put "operation_id" w (put "idempotency_key" u r))) ≡ semantic r
unfolding semantic
semantic-put_ids v w u r =
    ap (λ (n : Fields). with_origin (pop "captured_at" (origin_of n)) n)
      (pop_thrice "idempotency_key" "operation_id" "capture_id" r)

with_origin-IsCleanFields :
    (fs n : Fields) → IsCleanFields fs → IsCleanFields n → IsCleanFields (with_origin fs n)
with_origin-IsCleanFields end n c d = d
with_origin-IsCleanFields (field k v fs) n c d =
    put-IsCleanFields "origin" (obj (field k v fs)) n (unfold IsClean in c) d

origin_of-IsCleanFields : (n : Fields) → IsCleanFields n → IsCleanFields (origin_of n)
origin_of-IsCleanFields n c = object (get "origin" n) refl
  where
    object :
        (o : Option Value)
        → get "origin" n ≡ o
        → IsCleanFields (elim o [ some (obj fs) ↦ fs | _ ↦ end ])
    object none e = unfold IsClean in tt
    object (some (obj fs)) e = unfold IsClean in get-IsClean "origin" (obj fs) n c e
    object (some _) e = unfold IsClean in tt

semantic-IsCleanFields : (r : Fields) → IsCleanFields r → IsCleanFields (semantic r)
unfolding semantic
semantic-IsCleanFields r c =
    let n = pop "idempotency_key" (pop "operation_id" (pop "capture_id" r)) in
    let d =
      pop-IsCleanFields "idempotency_key" _
        (pop-IsCleanFields "operation_id" _ (pop-IsCleanFields "capture_id" r c)) in
    with_origin-IsCleanFields _ n
      (pop-IsCleanFields "captured_at" (origin_of n) (origin_of-IsCleanFields n d)) d

-- A request sent again with a new capture id, operation id and key is equivalent to the first.
pub equivalent_request_resent :
    (r : Fields) (v w u : Value)
    → IsCleanFields r
    → equivalent_request r (put "capture_id" v (put "operation_id" w (put "idempotency_key" u r)))
      ≡ true
unfolding equivalent_request
equivalent_request_resent r v w u c =
    rw (semantic-put_ids v w u r) (dict_eq_self (semantic r) (semantic-IsCleanFields r c))

get-with_origin : (k : String) (fs n : Fields) → k ≢ "origin" → get k (with_origin fs n) ≡ get k n
get-with_origin k end n ne = refl
get-with_origin k (field j v fs) n ne =
    ground (arith, get-pop_other k "origin" n ne, eq_iff "origin" k)

-- The keys of a request that mean nothing: the three ids that each submission makes anew, and the
-- origin, which is compared without its capture time.
abbrev pub IsMeant : String → Type 0
IsMeant k = (k ≢ "capture_id") × (k ≢ "operation_id") × (k ≢ "idempotency_key") × (k ≢ "origin")

get-semantic : (k : String) (r : Fields) → IsMeant k → get k (semantic r) ≡ get k r
unfolding semantic
get-semantic k r (ne1, ne2, ne3, ne4) =
    get-with_origin k _ _ ne4
    ∙ get-pop_other k "idempotency_key" _ ne3
    ∙ get-pop_other k "operation_id" _ ne2
    ∙ get-pop_other k "capture_id" r ne1

-- Two requests that differ at a key that means something are not equivalent.
pub equivalent_request_other :
    (k : String) (x : Value) (r q : Fields)
    → IsMeant k
    → get k r ≡ some x
    → IsOther x (get k q)
    → equivalent_request r q ≡ false
unfolding equivalent_request
equivalent_request_other k x r q meant h d =
    dict_eq_other k x (semantic r) (semantic q) (get-semantic k r meant ∙ h)
      (subst (IsOther x) (sym (get-semantic k q meant)) d)
