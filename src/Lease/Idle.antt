-- ===== src/Lease/Idle.antt =====
-- When the engine of lifecycle/leases.py ends itself.
use kenaz_ml.Prelude.{
  ℕ, ◌+◌, ◌≤◌, ◌<◌, nat_eq, string_eq, pair_eq, Bool, true, false, Option, none, some, [], ◌≡◌, ◌↔◌,
  arith,
}
use kenaz_ml.Lease.{LeaseTable, live, live_count, should_exit}

-- Nothing is polled, or the window after the last poll is over at `now`, with `more` ticks to spare.
abbrev pub PollOver : Option ℕ → ℕ → ℕ → Type 0
PollOver none window now = Unit
PollOver (some poll) window now = poll + window ≤ now

-- With an idle period above 0, the engine ends itself exactly when the install is managed, no
-- client holds a lease, the window of the last health poll is over, and both the idle countdown and
-- the end of the poll's window lie at least the idle period back; without a poll, what is said of
-- it is dropped.
pub should_exit_iff :
    (managed : Bool) (checked now : ℕ) (t : LeaseTable)
    → 0 < t.idle_exit_sec
    → (should_exit managed checked now t ≡ true) ↔ (
        (managed ≡ true)
        × (t.leases ≡ [])
        × PollOver t.last_health_poll t.implicit_lease_sec checked
        × (t.last_live + t.idle_exit_sec ≤ now)
        × PollOver t.last_health_poll (t.implicit_lease_sec + t.idle_exit_sec) now)
unfolding should_exit
should_exit_iff managed checked now t h = ground arith

-- A table counts no live lease exactly when nothing keeps it live.
pub live_count_zero_iff : (now : ℕ) (t : LeaseTable) → (live_count now t ≡ 0) ↔ (live now t ≡ false)
unfolding live_count live
live_count_zero_iff now t = ground arith
