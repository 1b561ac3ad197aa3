-- ===== src/Lease/Pinned.antt =====
-- A client that lives keeps the engine: runs in which one client's lease is not given up.
use kenaz_ml.Prelude.{
  ℕ, ◌<◌, String, nat_eq, string_eq, pair_eq, pair_beq_iff, Bool, true, false, Option, none, some,
  [], ◌≡◌, ◌≢◌, ap, arith, ◌⊎◌, inl, inr, Bool-cases, leb,
}
use kenaz_ml.Dict.{Dict, has}
use kenaz_ml.Dict.Laws.{has-eq-get, has-put, has-remove}
use kenaz_ml.Lease.{
  Lease, Key, LeaseTable, renew, make_room, make_lease, sweep_collect, should_exit,
  restart_countdown, note_health_poll,
}
use kenaz_ml.Lease.Room.{leases_of, make_room_below, make_room_full}
use kenaz_ml.Lease.Invariant.{IsWellFormed, IsTable}
use kenaz_ml.Lease.Sweep.{has-sweep_scan, collected-idle_exit_sec, get-sweep_collect}
use kenaz_ml.Lease.Idle.{should_exit_iff}
use kenaz_ml.Lease.Engine.{
  Engine, Step, Step-IsWellFormed, restarted, polled, renewed, scans, collects,
}

-- The step does not give up the lease of `key`: a scan finds its pid alive, and a lease that is
-- renewed is this one or another client's.
abbrev pub Spares : Key → {g h : Engine} → Step g h → Type 0
Spares key (restarted g now) = Unit
Spares key (polled g now) = Unit
Spares key (renewed g now client pid version contracts) = (client ≢ key.0) ⊎ ((client, pid) ≡ key)
Spares key (scans g alive) = alive key.1 ≡ true
Spares key (collects g dead checked stamped e) = Unit

pub data SparingRun (key : Key) (g : Engine) : Engine → Type 0 where
  here : SparingRun key g g
  next : {h k : Engine} → SparingRun key g h → (s : Step h k) → Spares key s → SparingRun key g k

abbrev NotListed : Key → Option (Dict Key Lease) → Type 0
NotListed key none = Unit
NotListed key (some dead) = has dead key ≡ false

pub record IsPinned (key : Key) (g : Engine) : Type 0 where
  pub formed : IsWellFormed g.table
  pub held : has g.table.leases key ≡ true
  pub waits : 0 < g.table.idle_exit_sec
  pub unlisted : NotListed key g.scanned

make_room-has :
    (client : String) (leases : Dict Key Lease) (key : Key)
    → IsTable leases
    → client ≢ key.0
    → has leases key ≡ true
    → has (make_room client leases) key ≡ true
make_room-has client leases key h ne held = elim (Bool-cases (leb 8 (leases_of client leases))) [
  | inl full ↦
      let (victim, lease, oldest, e) = make_room_full client leases h.unique (ground arith) in
      ground (
        arith,
        e,
        oldest.own,
        has-remove leases victim key h.unique,
        string_eq.beq_iff victim.0 client,
        string_eq.beq_iff victim.0 key.0,
      )
  | inr room ↦ rw (make_room_below client leases (ground arith)) held
]

renew-has :
    (now : ℕ) (client : String) (pid : ℕ) (version : String)
    (contracts : Option (Dict String String)) (t : LeaseTable) (key : Key)
    → IsWellFormed t
    → (client ≢ key.0) ⊎ ((client, pid) ≡ key)
    → has t.leases key ≡ true
    → has (renew now client pid version contracts t).0.leases key ≡ true
unfolding renew
renew-has now client pid version contracts t key h (inl ne) held =
    let lease = make_lease now client pid version contracts in
    ground (
      arith,
      has-put t.leases (client, pid) key lease,
      has-put (make_room client t.leases) (client, pid) key lease,
      make_room-has client t.leases key h ne held,
    )
renew-has now client pid version contracts t key h (inr e) held =
    let lease = make_lease now client pid version contracts in
    ground (
      arith,
      has-put t.leases (client, pid) key lease,
      has-put (make_room client t.leases) (client, pid) key lease,
      pair_beq_iff (client, pid) key,
    )

Step-IsPinned :
    (key : Key) {g h : Engine} (s : Step g h) → Spares key s → IsPinned key g → IsPinned key h
unfolding restart_countdown note_health_poll
Step-IsPinned key (restarted g now) sp p = record {
  formed = p.formed;
  held = p.held;
  waits = p.waits;
  unlisted = p.unlisted;
}
Step-IsPinned key (polled g now) sp p = record {
  formed = p.formed;
  held = p.held;
  waits = p.waits;
  unlisted = p.unlisted;
}
Step-IsPinned key (renewed g now client pid version contracts) sp p = record {
  formed = Step-IsWellFormed (renewed g now client pid version contracts) p.formed;
  held = renew-has now client pid version contracts g.table key p.formed sp p.held;
  waits = unfold renew in p.waits;
  unlisted = p.unlisted;
}
Step-IsPinned key (scans g alive) sp p = record {
  formed = p.formed;
  held = p.held;
  waits = p.waits;
  unlisted = ground (arith, has-sweep_scan alive g.table key p.formed);
}
Step-IsPinned key (collects g dead checked stamped e) sp p = record {
  formed = Step-IsWellFormed (collects g dead checked stamped e) p.formed;
  held = ground (
    arith,
    p.held,
    p.unlisted,
    get-sweep_collect dead checked stamped g.table key p.formed.unique,
    has-eq-get g.table.leases key,
    has-eq-get (sweep_collect dead checked stamped g.table).leases key,
  );
  waits = rw (collected-idle_exit_sec dead checked stamped g.table) p.waits;
  unlisted = tt;
}

SparingRun-IsPinned :
    (key : Key) {g h : Engine} → IsPinned key g → SparingRun key g h → IsPinned key h
SparingRun-IsPinned key p here = p
SparingRun-IsPinned key p (next r s sp) = Step-IsPinned key s sp (SparingRun-IsPinned key p r)

held_no_exit :
    (managed : Bool) (checked now : ℕ) (t : LeaseTable) (key : Key)
    → has t.leases key ≡ true
    → 0 < t.idle_exit_sec
    → should_exit managed checked now t ≡ false
unfolding has
held_no_exit managed checked now t key held wait =
    let no_key = λ (e : t.leases ≡ []). ap (λ (d : Dict Key Lease). has d key) e in
    elim (Bool-cases (should_exit managed checked now t)) [
      | inl e ↦ cc (held, no_key ((should_exit_iff managed checked now t wait).0 e).1)
      | inr e ↦ e
    ]

-- From a well-formed table that holds a lease, with no removal pending for it and an idle period
-- above 0, every run of the threads in which the scans find its pid alive and the only lease of its
-- client that is renewed is this one leaves the lease in the table, and the engine does not end
-- itself at any reading of the clock.
pub held_pins_engine :
    (key : Key) (g h : Engine)
    → IsPinned key g
    → SparingRun key g h
    → (has h.table.leases key ≡ true)
      × ((managed : Bool) (checked now : ℕ) → should_exit managed checked now h.table ≡ false)
held_pins_engine key g h p r =
    let q = SparingRun-IsPinned key p r in
    (q.held, λ managed checked now. held_no_exit managed checked now h.table key q.held q.waits)
