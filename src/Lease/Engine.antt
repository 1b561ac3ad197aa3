-- ===== src/Lease/Engine.antt =====
-- The engine's threads over one lease table. Each method holds the lock for its whole body, but
-- `sweep` has two critical sections: requests may come between its scan and its removal.
use kenaz_ml.Prelude.{ℕ, String, nat_eq, string_eq, pair_eq, Bool, Option, none, some, ◌≡◌}
use kenaz_ml.Dict.{Dict}
use kenaz_ml.Lease.{
  Lease, Key, LeaseTable, new, restart_countdown, note_health_poll, renew, sweep_scan,
  sweep_collect,
}
use kenaz_ml.Lease.Invariant.{IsWellFormed, renew-IsWellFormed, sweep_collect-IsWellFormed}

-- The table, and what the sweeper thread has scanned and not yet removed.
pub record Engine : Type 0 where
  pub table : LeaseTable
  pub scanned : Option (Dict Key Lease)

pub data Step : Engine → Engine → Type 0 where
  restarted : (g : Engine) (now : ℕ) → Step g (record g { table = restart_countdown now g.table })
  polled : (g : Engine) (now : ℕ) → Step g (record g { table = note_health_poll now g.table })
  renewed :
      (g : Engine) (now : ℕ) (client : String) (pid : ℕ) (version : String)
      (contracts : Option (Dict String String))
      → Step g (record g { table = (renew now client pid version contracts g.table).0 })
  scans :
      (g : Engine) (alive : ℕ → Bool)
      → Step g (record g { scanned = some (sweep_scan alive g.table) })
  collects :
      (g : Engine) (dead : Dict Key Lease) (checked stamped : ℕ)
      → g.scanned ≡ some dead
      → Step g (record g { table = sweep_collect dead checked stamped g.table; scanned = none })

pub data Reach (g : Engine) : Engine → Type 0 where
  here : Reach g g
  next : {h k : Engine} → Reach g h → Step h k → Reach g k

abbrev pub start : ℕ → ℕ → ℕ → Engine
start implicit idle now = record { table = new implicit idle now; scanned = none }

pub Step-IsWellFormed : {g h : Engine} → Step g h → IsWellFormed g.table → IsWellFormed h.table
unfolding restart_countdown note_health_poll sweep_collect
Step-IsWellFormed (restarted g now) w = w
Step-IsWellFormed (polled g now) w = w
Step-IsWellFormed (renewed g now client pid version contracts) w =
    renew-IsWellFormed now client pid version contracts g.table w
Step-IsWellFormed (scans g alive) w = w
Step-IsWellFormed (collects g dead checked stamped e) w =
    sweep_collect-IsWellFormed dead checked stamped g.table w

-- However the threads interleave, every table that the engine reaches from a well-formed one is a
-- dictionary whose entries stand under their own client and pid, and no client holds more than
-- eight leases.
pub Reach-IsWellFormed : {g h : Engine} → IsWellFormed g.table → Reach g h → IsWellFormed h.table
Reach-IsWellFormed w here = w
Reach-IsWellFormed w (next r s) = Step-IsWellFormed s (Reach-IsWellFormed w r)
