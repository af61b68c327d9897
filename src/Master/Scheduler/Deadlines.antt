-- ===== src/Master/Scheduler/Deadlines.antt =====
-- Where the deadlines lie.
use native.Mathlib.Nat.{div-add-mod', mod-lt, mul-mod_left, add-mod_right}
use ptp_client.Prelude.{
  ℕ, ◌+◌, ◌*◌, ◌/◌, ◌%◌, ◌≤◌, ◌<◌, ◌≡◌, arith, true, false, ltb, ℤ, if◌then◌else◌,
}
use ptp_client.Master.Scheduler.{
  interval_sec, next_boundary, PeriodicScheduler, periodic_scheduler, due, advance,
}

-- The first multiple of the interval after `now`: it is later, and no more than an interval later.
pub next_boundary_lem :
    (now interval : ℕ)
    → 0 < interval
    → (now < next_boundary now interval) × (next_boundary now interval ≤ now + interval)
unfolding next_boundary
next_boundary_lem now interval h = omega (arith, div-add-mod' now interval, mod-lt now h)

-- A multiple of the interval.
abbrev pub IsAligned : PeriodicScheduler → Type 0
IsAligned s = s.deadline % s.interval ≡ 0

pub periodic_scheduler-IsAligned :
    (log_interval : ℤ) (now : ℕ) → IsAligned (periodic_scheduler log_interval now)
unfolding periodic_scheduler next_boundary
periodic_scheduler-IsAligned log_interval now =
    mul-mod_left (now / interval_sec log_interval + 1) (interval_sec log_interval)

advance-IsAligned : (s : PeriodicScheduler) (now : ℕ) → IsAligned s → IsAligned (advance s now).0
unfolding advance next_boundary
advance-IsAligned s now e =
    ground
      (arith, mul-mod_left (now / s.interval + 1) s.interval, add-mod_right s.deadline s.interval)

-- When a tick is due, `advance` moves to a deadline after now and at most an interval away, still
-- on a multiple of the interval, and counts a skipped tick exactly if now is more than half an
-- interval late.
pub advance-due :
    (s : PeriodicScheduler) (now : ℕ)
    → 0 < s.interval
    → IsAligned s
    → due s now ≡ true
    → let (s', late) = advance s now in
      IsAligned s'
      × (now < s'.deadline)
      × (s'.deadline ≤ now + s.interval)
      × (s'.interval ≡ s.interval)
      × (late ≡ ltb (2 * s.deadline + s.interval) (2 * now))
      × (s'.skipped ≡ s.skipped + (if late then 1 else 0))
unfolding advance due
advance-due s now h a d =
    let aligned = advance-IsAligned s now a in
    let (after, near) = next_boundary_lem now s.interval h in
    (aligned, ground (arith, after), ground (arith, near), ground arith, ground arith, ground arith)

-- When no tick is due, `advance` postpones the pending deadline by a whole interval.
pub advance_early :
    (s : PeriodicScheduler) (now : ℕ)
    → 0 < s.interval
    → due s now ≡ false
    → advance s now ≡ (record s { deadline = s.deadline + s.interval }, false)
unfolding advance due
advance_early s now h d = ground arith
