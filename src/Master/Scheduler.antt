-- ===== src/Master/Scheduler.antt =====
-- src/ptp_client/ptp/l2master/scheduler.py: deadlines on multiples of a message interval. Times are
-- nanoseconds: an interval of 2 ** k seconds is a whole number of them down to k = -9, and the
-- configuration admits k from -7 up. The source has the same values as floating-point seconds.
pub mod Deadlines
use ptp_client.Prelude.{
  ℕ, ◌+◌, ◌-◌, ◌*◌, ◌/◌, ◌^◌, Bool, true, false, ltb, leb, ℤ, pos, negsuc, if◌then◌else◌, suc,
}

abbrev pub second : ℕ
second = 1000000000

unfoldable pub interval_sec : ℤ → ℕ
interval_sec (pos k) = second * 2 ^ k
interval_sec (negsuc k) = second / 2 ^ suc k

unfoldable pub next_boundary : ℕ → ℕ → ℕ
next_boundary now interval = (now / interval + 1) * interval

pub record PeriodicScheduler : Type 0 where
  pub interval : ℕ
  pub deadline : ℕ
  pub skipped : ℕ

unfoldable pub periodic_scheduler : ℤ → ℕ → PeriodicScheduler
periodic_scheduler log_interval now = record {
  interval = interval_sec log_interval;
  deadline = next_boundary now (interval_sec log_interval);
  skipped = 0;
}

unfoldable pub due : PeriodicScheduler → ℕ → Bool
due s now = leb s.deadline now

-- now > deadline + interval / 2
abbrev pub too_late : PeriodicScheduler → ℕ → Bool
too_late s now = ltb (2 * s.deadline + s.interval) (2 * now)

unfoldable pub advance : PeriodicScheduler → ℕ → PeriodicScheduler × Bool
advance s now =
    if too_late s now
    then (record s { skipped = s.skipped + 1; deadline = next_boundary now s.interval }, true)
    else if leb (s.deadline + s.interval) now
    then (record s { deadline = next_boundary now s.interval }, false)
    else (record s { deadline = s.deadline + s.interval }, false)

-- max(0.0, deadline - now)
unfoldable pub wait_timeout : PeriodicScheduler → ℕ → ℕ
wait_timeout s now = s.deadline - now
