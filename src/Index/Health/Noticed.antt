-- ===== src/Index/Health/Noticed.antt =====
-- That an index which falls behind is noticed (src/stigmergy/index/health.py).
use stigmergy.Prelude.{
  ℕ, ◌+◌, ◌≤◌, ◌<◌, ◌≡◌, refl, String, true, false, Option, none, some, ◌⊎◌, inl, inr, List, [],
  ◌∷◌, arith, lt→ltb, In, Bool-cases,
}
use stigmergy.Index.Health.{
  Health, new_row, ensure_schema, mark_dirty, record_incremental, record_full_rebuild, old_rebuild,
  not_converged, rebuild_is_old, longer_ago, convergence_grace, warnings,
}

-- The row after operations at times that never go back, the last of them at the time.
pub data Run : ℕ → Health → Type 0 where
  created : (now : ℕ) → Run now (ensure_schema now none)
  marked :
      {now : ℕ} {h : Health} (later : ℕ) (head : String)
      → Run now h
      → now ≤ later
      → Run later (mark_dirty later head (some h))
  followed :
      {now : ℕ} {h : Health} (later : ℕ) (commit : String) (rows : Option ℕ)
      → Run now h
      → now ≤ later
      → Run later (record_incremental later commit rows (some h))
  rebuilt :
      {now : ℕ} {h : Health} (later : ℕ) (commit : String) (rows : ℕ)
      → Run now h
      → now ≤ later
      → Run later (record_full_rebuild later commit rows (some h))

-- a row that is dirty since some time, or shows the repository's commit and was rebuilt
pub data IsConsistent (now : ℕ) (h : Health) : Type 0 where
  is_dirty :
      (since : ℕ) → h.dirty ≡ true → h.dirty_since ≡ some since → since ≤ now → IsConsistent now h
  is_clean :
      (at : ℕ)
      → h.dirty ≡ false
      → h.dirty_since ≡ none
      → h.repository_head_sha ≡ h.indexed_commit_sha
      → h.last_full_rebuild_at ≡ some at
      → at ≤ now
      → IsConsistent now h

pub Run-IsConsistent : {now : ℕ} {h : Health} → Run now h → IsConsistent now h
unfolding ensure_schema new_row mark_dirty record_incremental record_full_rebuild
Run-IsConsistent (created now) = is_dirty now refl refl (omega arith)
Run-IsConsistent (marked {now} {h} later head run le) = elim (Run-IsConsistent run) [
  | is_dirty since d s l ↦ is_dirty since refl (rw d s) (omega (arith, l, le))
  | is_clean at d s e f l ↦ is_dirty later refl (rw d refl) (omega arith)
]
Run-IsConsistent (followed {now} {h} later commit rows run le) = elim (Run-IsConsistent run) [
  | is_dirty since d s l ↦ is_dirty since d s (omega (arith, l, le))
  | is_clean at d s e f l ↦ is_clean at d s refl f (omega (arith, l, le))
]
Run-IsConsistent (rebuilt {now} {h} later commit rows run le) =
    is_clean later refl refl refl refl (omega arith)

-- what may happen while no rebuild succeeds
pub data Event : Type 0 where
  mark : ℕ → String → Event
  follow : ℕ → String → Option ℕ → Event

abbrev pub happen : List Event → Health → Health
happen [] h = h
happen (mark now head ∷ es) h = happen es (mark_dirty now head (some h))
happen (follow now commit rows ∷ es) h = happen es (record_incremental now commit rows (some h))

stays_dirty :
    (es : List Event) (h : Health) (since : ℕ)
    → h.dirty ≡ true
    → h.dirty_since ≡ some since
    → ((happen es h).dirty ≡ true) × ((happen es h).dirty_since ≡ some since)
unfolding mark_dirty record_incremental ensure_schema
stays_dirty [] h since d s = (d, s)
stays_dirty (mark now head ∷ es) h since d s =
    stays_dirty es (mark_dirty now head (some h)) since refl (rw d s)
stays_dirty (follow now commit rows ∷ es) h since d s =
    stays_dirty es (record_incremental now commit rows (some h)) since d s

late_warned :
    (now : ℕ) (h : Health) (since : ℕ)
    → h.dirty ≡ true
    → h.dirty_since ≡ some since
    → since + convergence_grace < now
    → In not_converged (warnings now (some h))
unfolding warnings ensure_schema
late_warned now h since d s l =
    let e : longer_ago convergence_grace now h.dirty_since ≡ true =
      rw s (lt→ltb (since + convergence_grace) now l) in
    rw (d, e) (inl refl)

-- From the row's creation on, operations at times that do not go back keep it consistent: it is dirty
-- since a time that has been, or it shows the repository's commit and has been rebuilt. When it is dirty
-- and no rebuild succeeds, whatever marks and commits come, whoever reads more than fifteen minutes later
-- is warned; and a row that is not dirty gives no such warning at any time.
pub Run-noticed :
    (now : ℕ) (h : Health)
    → Run now h
    → IsConsistent now h
      × (h.dirty ≡ true
          → (es : List Event) (later : ℕ) → now + convergence_grace < later
          → In not_converged (warnings later (some (happen es h))))
      × (h.dirty ≡ false
          → (later : ℕ)
          → (warnings later (some h) ≡ []) ⊎ (warnings later (some h) ≡ rebuild_is_old ∷ []))
unfolding warnings ensure_schema
Run-noticed now h run = (
  Run-IsConsistent run,
  λ d es later l. elim (Run-IsConsistent run) [
    | is_dirty since a s m ↦
        let (x, y) = stays_dirty es h since a s in
        late_warned later (happen es h) since x y (omega (arith, l, m))
    | is_clean at a s e f m ↦ absurd (cc (a, d))
  ],
  λ d later. elim (Run-IsConsistent run) [
    | is_dirty since a s m ↦ absurd (cc (a, d))
    | is_clean at a s e f m ↦ elim (Bool-cases (old_rebuild later h h.last_full_rebuild_at)) [
      | inl g ↦ inr (rw (g, d) refl)
      | inr g ↦ inl (rw (g, d) refl)
    ]
  ],
)
