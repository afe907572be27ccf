-- ===== src/Server/Throttle.antt =====
-- src/stigmergy/server/ratelimit.py: `AuthFailureThrottle`. Addresses keep the order in which they
-- last failed; the times of an address's failures stand oldest first.
use stigmergy.Prelude.{
  ℕ, suc, ◌-◌, ◌≤◌, ◌≡◌, refl, ap, String, Bool, true, none, some, List, [], ◌∷◌, ◌++◌, ltb, leb,
  if◌then◌else◌, length, keep, All, inl, inr, All-imp, eq_refl, Bool-cases, arith, str_eq,
}
use stigmergy.Prelude.Dict
use stigmergy.Prelude.Dict.{Dict}

abbrev pub max_tracked_addresses : ℕ
max_tracked_addresses = 10_000

pub record Throttle : Type 0 where
  pub failures : ℕ
  pub window : ℕ
  pub seen : Dict (List ℕ)

-- `while stamps and now - stamps[0] > window: stamps.popleft()`
unfoldable pub drop_stale : ℕ → ℕ → List ℕ → List ℕ
drop_stale window now [] = []
drop_stale window now (t ∷ ts) =
    let rest = drop_stale window now ts in if ltb window (now - t) then rest else t ∷ ts

-- `_recent` shortens the stored times too: they are the same deque.
unfoldable pub recent : String → ℕ → Throttle → List ℕ × Throttle
unfolding drop_stale
recent address now h = elim (Dict.get address h.seen) [
  | none ↦ ([], h)
  | some stamps ↦
      let left = drop_stale h.window now stamps in
      (left, record h { seen = Dict.put address left h.seen })
]

unfoldable pub blocked : String → ℕ → Throttle → Bool × Throttle
unfolding recent
blocked address now h =
    let (stamps, h') = recent address now h in (leb h'.failures (length stamps), h')

unfoldable pub without : String → Dict (List ℕ) → Dict (List ℕ)
without k [] = []
without k ((j, v) ∷ d) = let rest = without k d in if str_eq j k then rest else (j, v) ∷ rest

-- seen[address] = stamps; move_to_end(address)
abbrev pub put_last : String → List ℕ → Dict (List ℕ) → Dict (List ℕ)
put_last k v d = without k d ++ (k, v) ∷ []

-- while len(seen) > limit: popitem(last=False)
unfoldable pub evict : ℕ → Dict (List ℕ) → Dict (List ℕ)
evict limit [] = []
evict limit (e ∷ d) = let rest = evict limit d in if ltb limit (length (e ∷ d)) then rest else e ∷ d

unfoldable pub failed : String → ℕ → Throttle → Throttle
unfolding recent without evict
failed address now h =
    let (stamps, h') = recent address now h in
    record h' { seen = evict max_tracked_addresses (put_last address (stamps ++ now ∷ []) h'.seen) }

-- no time is later than a later one
abbrev pub IsChronological : List ℕ → Type 0
IsChronological [] = Unit
IsChronological (t ∷ ts) = All (λ u. t ≤ u) ts × IsChronological ts

keep-All : (p : ℕ → Bool) (ts : List ℕ) → All (λ t. p t ≡ true) ts → keep p ts ≡ ts
keep-All p [] h = refl
keep-All p (t ∷ ts) h = rw h.0 (ap (◌∷◌ t) (keep-All p ts h.1))

-- a failure that still counts at `now`
abbrev pub counts_at : ℕ → ℕ → ℕ → Bool
counts_at window now t = leb (now - t) window

drop_stale-keep :
    (window now : ℕ) (ts : List ℕ)
    → IsChronological ts
    → drop_stale window now ts ≡ keep (counts_at window now) ts
unfolding drop_stale
drop_stale-keep window now [] s = refl
drop_stale-keep window now (t ∷ ts) s = elim (Bool-cases (ltb window (now - t))) [
  | inl e ↦ ground (arith, drop_stale-keep window now ts s.1)
  | inr e ↦
      let kept =
        keep-All (counts_at window now) ts (All-imp _ _ ts (λ u later. ground arith) s.0) in
      ground (arith, kept)
]

-- An address with recorded failures, oldest first, is blocked exactly when at least `failures` of
-- them are still inside the window.
pub blocked_exact :
    (address : String) (now : ℕ) (h : Throttle) (stamps : List ℕ)
    → Dict.get address h.seen ≡ some stamps
    → IsChronological stamps
    → (blocked address now h).0 ≡ leb h.failures (length (keep (counts_at h.window now) stamps))
unfolding blocked recent
blocked_exact address now h stamps found s =
    rw (blocked, recent, found, drop_stale-keep h.window now stamps s)

pub length-evict : (limit : ℕ) (d : Dict (List ℕ)) → length (evict limit d) ≤ limit
unfolding evict
length-evict limit [] = omega arith
length-evict limit (e ∷ d) = ground (arith, length-evict limit d)

get-without : (k : String) (d : Dict (List ℕ)) → Dict.get k (without k d) ≡ none
unfolding without Dict.get
get-without k [] = refl
get-without k ((j, v) ∷ d) = ground (arith, get-without k d)

get-snoc :
    (k : String) (v : List ℕ) (d : Dict (List ℕ))
    → Dict.get k d ≡ none
    → Dict.get k (d ++ (k, v) ∷ []) ≡ some v
unfolding Dict.get
get-snoc k v [] h = rw eq_refl
get-snoc k v ((j, w) ∷ d) h = ground (arith, get-snoc k v d)

get-last :
    (k : String) (v : List ℕ) (limit : ℕ) (d : Dict (List ℕ))
    → Dict.get k d ≡ none
    → Dict.get k (evict (suc limit) (d ++ (k, v) ∷ [])) ≡ some v
unfolding evict Dict.get
get-last k v limit [] h = ground (arith, eq_refl k)
get-last k v limit ((j, w) ∷ d) h = ground (arith, get-last k v limit d, get-snoc k v d)

-- A failure is recorded after those of its address that still count, and however many addresses
-- fail, at most ten thousand are remembered.
pub failed_recorded :
    (address : String) (now : ℕ) (h : Throttle)
    → (Dict.get address (failed address now h).seen ≡ some ((recent address now h).0 ++ now ∷ []))
      × (length (failed address now h).seen ≤ max_tracked_addresses)
unfolding failed
failed_recorded address now h =
    let (left, h') = recent address now h in
    (
      get-last address (left ++ now ∷ []) 9_999 (without address h'.seen)
          (get-without address h'.seen),
      length-evict max_tracked_addresses (put_last address (left ++ now ∷ []) h'.seen),
    )
