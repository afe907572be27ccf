-- ===== src/Librarian/Schedule.antt =====
-- src/stigmergy/librarian/schedule.py: the daily jobs of each tenant, and when a rebuild or a garden run
-- is due (`_rebuild_due` and `_garden_tenant` of worker.py). Times are microseconds from a midnight in
-- UTC before all of them; `int` reads a number as Python does, `none` being a ValueError or a number
-- below zero.
pub mod Due
use stigmergy.Prelude.{
  ℕ, ◌+◌, ◌-◌, ◌*◌, ◌/◌, ◌≡◌, refl, String, Bool, true, false, ◌&&◌, Option, none, some, List, [],
  ◌∷◌, ltb, leb, ◌==◌, is_empty, strip, codes, Text, if◌then◌else◌,
}
use stigmergy.Capture.Schema.{seconds}

abbrev pub day : ℕ
day = 86_400_000_000

pub record TimeOfDay : Type 0 where
  pub hour : ℕ
  pub minute : ℕ

-- raw.split(":", 1), where it has two parts
abbrev pub halves : Text → Option (Text × Text)
halves [] = none
halves (c ∷ cs) =
    let rest = halves cs in
    if c == b':' then some ([], cs) else elim rest [ none ↦ none | some (a, b) ↦ some (c ∷ a, b) ]

module _ (int : Text → Option ℕ) where
  abbrev pub in_range : Option ℕ → Option ℕ → Option TimeOfDay
  in_range (some h) (some m) =
      if leb h 23 && leb m 59 then some (record { hour = h; minute = m }) else none
  in_range _ _ = none

  abbrev pub read_daily : Text → Option TimeOfDay
  read_daily raw = elim (halves raw) [ none ↦ none | some (h, m) ↦ in_range (int h) (int m) ]

  -- `parse_daily`; its last fallback is "00:00"
  unfoldable pub parse_daily : Text → Text → TimeOfDay
  unfolding strip
  parse_daily value default =
      let given = strip value in
      elim (read_daily (if is_empty given then default else given)) [
        | some at ↦ at
        | none ↦
            elim (read_daily (if is_empty (strip default) then codes "00:00" else strip default)) [
              | some at ↦ at
              | none ↦ record { hour = 0; minute = 0 }
            ]
      ]

abbrev pub offset : TimeOfDay → ℕ
offset at = seconds (at.hour * 3600 + at.minute * 60)

-- the latest scheduled time
unfoldable pub scheduled : ℕ → TimeOfDay → ℕ
scheduled now at =
    let today = (now / day) * day + offset at in if ltb now today then today - day else today

unfoldable pub daily_due : ℕ → Option ℕ → TimeOfDay → Bool
unfolding scheduled
daily_due now none at = true
daily_due now (some last) at = ltb last (scheduled now at)

-- REBUILD_RETRY
abbrev pub rebuild_retry : ℕ
rebuild_retry = seconds 600

-- `_rebuild_due`: `built` tells whether the tenant's index was ever built
unfoldable pub rebuild_due : Bool → ℕ → Option ℕ → TimeOfDay → Bool
unfolding daily_due
rebuild_due built now last at =
    if built
    then daily_due now last at
    else elim last [ none ↦ true | some l ↦ ltb (l + rebuild_retry) now ]
