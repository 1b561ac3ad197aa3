-- ===== src/Lease.antt =====
-- kenaz_ml/lifecycle/leases.py: the table of client leases, the sweep and the idle timer.
-- A time is a natural number of clock ticks. Each reading of the clock is an argument, in the order
-- in which the method reads it, so two readings of one method may differ. A pid is a natural
-- number, since the route accepts positive pids only, and what a client sends as `min_contracts` has
-- texts as values. Logging is left out.
pub mod Room
pub mod Renew
pub mod Invariant
pub mod Idle
pub mod Pinned
pub mod Sweep
pub mod Engine
mod Scenarios
use kenaz_ml.Prelude.{
  ℕ, ◌+◌, ◌-◌, max, String, nat_eq, string_eq, pair_eq, ◌==◌, Bool, true, false, not, ◌&&◌, ◌||◌,
  Option, none, some, List, [], ◌∷◌, map, ltb, leb, if◌then◌else◌, length, filter, min_by,
}
use kenaz_ml.Dict.{Dict, has, put, remove, remove_all}

-- What `os.kill(pid, 0)` does.
pub data KillOutcome : Type 0 where
  delivered process_lookup_error permission_error os_error : KillOutcome

abbrev pub max_pid : ℕ
max_pid = 4194304

abbrev pub max_leases_per_client : ℕ
max_leases_per_client = 8

abbrev alive_of : KillOutcome → Bool
alive_of delivered = true
alive_of process_lookup_error = false
alive_of permission_error = true
alive_of os_error = false

unfoldable pub pid_alive : (ℕ → KillOutcome) → ℕ → Bool
pid_alive kill pid = if leb pid 0 || ltb max_pid pid then false else alive_of (kill pid)

pub record Lease : Type 0 where
  pub client : String
  pub pid : ℕ
  pub client_version : String
  pub min_contracts : Dict String String
  pub renewed_at : ℕ

abbrev pub Key : Type 0
Key = String × ℕ

pub record LeaseTable : Type 0 where
  pub implicit_lease_sec : ℕ
  pub idle_exit_sec : ℕ
  pub leases : Dict Key Lease
  pub last_health_poll : Option ℕ
  pub last_live : ℕ

-- `LeaseTable()` with its two windows resolved, at the clock's reading `now`.
unfoldable pub new : ℕ → ℕ → ℕ → LeaseTable
new implicit idle now = record {
  implicit_lease_sec = implicit;
  idle_exit_sec = idle;
  leases = [];
  last_health_poll = none;
  last_live = now;
}

unfoldable pub restart_countdown : ℕ → LeaseTable → LeaseTable
restart_countdown now t = record t { last_live = max t.last_live now }

-- k[0] == client
abbrev pub is_client : String → Key → Bool
is_client client key = key.0 == client

-- The entry that `min(mine, key=renewed_at)` names is deleted.
unfoldable pub drop_oldest : Dict Key Lease → Dict Key Lease → Dict Key Lease
drop_oldest [] leases = leases
drop_oldest (item ∷ mine) leases =
    remove leases (min_by (λ (entry : Key × Lease). entry.1.renewed_at) item mine).0

unfoldable pub make_room : String → Dict Key Lease → Dict Key Lease
make_room client leases =
    let mine = filter (λ (entry : Key × Lease). is_client client entry.0) leases in
    if leb max_leases_per_client (length mine) then drop_oldest mine leases else leases

-- `min_contracts or {}`
abbrev contracts_or_empty : Option (Dict String String) → Dict String String
contracts_or_empty none = []
contracts_or_empty (some contracts) = contracts

unfoldable pub make_lease : ℕ → String → ℕ → String → Option (Dict String String) → Lease
make_lease now client pid version contracts = record {
  client = client;
  pid = pid;
  client_version = version;
  min_contracts = contracts_or_empty contracts;
  renewed_at = now;
}

unfoldable pub renew :
    ℕ → String → ℕ → String → Option (Dict String String) → LeaseTable → LeaseTable × Lease
renew now client pid version contracts t =
    let lease = make_lease now client pid version contracts in
    let room = if has t.leases (client, pid) then t.leases else make_room client t.leases in
    (record t { leases = put room (client, pid) lease; last_live = now }, lease)

unfoldable pub note_health_poll : ℕ → LeaseTable → LeaseTable
note_health_poll now t = record t { last_health_poll = some now; last_live = now }

-- `clock() - last_health_poll < implicit_lease_sec`
unfoldable pub implicit_live : ℕ → LeaseTable → Bool
implicit_live now t = elim t.last_health_poll [
  | none ↦ false
  | some poll ↦ ltb now (poll + t.implicit_lease_sec)
]

abbrev pub nonempty {ℓ} : {A : Type ℓ} → List A → Bool
nonempty [] = false
nonempty (x ∷ xs) = true

unfoldable pub live : ℕ → LeaseTable → Bool
unfolding implicit_live
live now t = nonempty t.leases || implicit_live now t

-- The first critical section of `sweep` and the probes after it: the entries whose pid is dead.
unfoldable pub sweep_scan : (ℕ → Bool) → LeaseTable → Dict Key Lease
sweep_scan alive t = filter (λ (entry : Key × Lease). not (alive entry.1.pid)) t.leases

-- The second critical section of `sweep`: `checked` and `stamped` are its readings of the clock.
unfoldable pub sweep_collect : Dict Key Lease → ℕ → ℕ → LeaseTable → LeaseTable
sweep_collect dead checked stamped t =
    let t' = record t { leases = remove_all dead t.leases } in
    if live checked t' then record t' { last_live = stamped } else t'

-- `sweep` with nothing between its two sections.
unfoldable pub sweep : (ℕ → Bool) → ℕ → ℕ → LeaseTable → LeaseTable × List Lease
unfolding sweep_scan sweep_collect
sweep alive checked stamped t =
    let dead = sweep_scan alive t in
    (sweep_collect dead checked stamped t, map (λ (entry : Key × Lease). entry.1) dead)

unfoldable pub live_count : ℕ → LeaseTable → ℕ
unfolding implicit_live
live_count now t = length t.leases + (if implicit_live now t then 1 else 0)

-- `max(last, last_health_poll + implicit_lease_sec)`
unfoldable pub idle_since : LeaseTable → ℕ
idle_since t = elim t.last_health_poll [
  | none ↦ t.last_live
  | some poll ↦ max t.last_live (poll + t.implicit_lease_sec)
]

-- `-` stops at 0, as `max(0.0, clock() - last)` does.
unfoldable pub idle_for : ℕ → ℕ → LeaseTable → ℕ
unfolding live idle_since
idle_for checked now t = if live checked t then 0 else now - idle_since t

unfoldable pub should_exit : Bool → ℕ → ℕ → LeaseTable → Bool
unfolding idle_for
should_exit managed checked now t = managed && leb t.idle_exit_sec (idle_for checked now t)
