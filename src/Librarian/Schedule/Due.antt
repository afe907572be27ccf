-- ===== src/Librarian/Schedule/Due.antt =====
-- When a daily job is due.
use stigmergy.Prelude.{
  ℕ, ◌+◌, ◌-◌, ◌*◌, ◌/◌, ◌%◌, ◌≤◌, ◌<◌, ◌≡◌, ◌↔◌, true, inl, inr, some, arith, ltb, Bool-cases,
}
use stigmergy.Librarian.Schedule.{day, TimeOfDay, offset, scheduled, daily_due}

-- A job that ran is due again exactly when its time of the day has come since: when some moment after
-- the last run, and not after now, is at that time of a day. Now is at least a day after the origin.
pub daily_due_exact :
    (now last : ℕ) (at : TimeOfDay)
    → offset at < day
    → day ≤ now
    → (daily_due now (some last) at ≡ true)
      ↔ ((s : ℕ) × (last < s) × (s ≤ now) × (s % day ≡ offset at))
unfolding daily_due scheduled
daily_due_exact now last at small late =
    elim (Bool-cases (ltb now ((now / day) * day + offset at))) [
      | inl e ↦ rw e (
        λ h. (
          (now / day) * day + offset at - day,
          ground (arith, h),
          ground (arith, e, late, small),
          omega (arith, small, late),
        ),
        λ (s, after, before, time). ground (arith, after, before, time, small, e),
      )
      | inr e ↦ rw e (
        λ h. (
          (now / day) * day + offset at,
          ground (arith, h),
          ground (arith, e),
          omega (arith, small),
        ),
        λ (s, after, before, time). ground (arith, after, before, time, small, e),
      )
    ]
