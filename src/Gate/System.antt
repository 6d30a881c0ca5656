-- ===== src/Gate/System.antt =====
-- The gate of src-tauri/src/maintenance/gate.rs with its clients: the permits that are held, the
-- waiters that are registered, and every interleaving of critical sections.
use textbook_lens.Base.{
  ℕ, ◌+◌, ◌-◌, ◌<◌, ◌≡◌, true, false, not, List, [], ◌∷◌, ◌++◌, ◌==◌, any, keep, Result, ok, err,
}
use textbook_lens.Gate.Defs.{
  ActiveOperationKind, Counts, slot, set_slot, no_counts, default_state, GateInner,
  GateAcquireError,
}
use textbook_lens.Gate.Ops.{
  Poll, pending, ready, NormalOperationPermit, ExclusiveMaintenancePermit, QueuedMaintenance,
  try_acquire_normal, poll_normal, try_acquire_maintenance, register, drop_queued, poll_maintenance,
  release_normal, release_exclusive, shutdown,
}

-- `normals` and `exclusives` count the permits that clients hold; `waiters` are the tickets of the
-- `acquire_maintenance` calls that have not returned.
pub record System : Type 0 where
  pub gate : GateInner
  pub normals : Counts
  pub exclusives : ℕ
  pub waiters : List ℕ

abbrev pub start : System
start = record {
  gate = record { state = default_state; changed = 0 };
  normals = no_counts;
  exclusives = 0;
  waiters = [];
}

pub data Event : Type 0 where
  tries_normal polls_normal drops_normal : ActiveOperationKind → Event
  tries_maintenance registers drops_exclusive shuts_down : Event
  polls_maintenance abandons : ℕ → Event

abbrev pub gain_normal :
    ActiveOperationKind → Result GateAcquireError NormalOperationPermit → Counts → Counts
gain_normal k (ok p) c = set_slot k c (slot k c + 1)
gain_normal k (err e) c = c

abbrev pub gain_exclusive : Result GateAcquireError ExclusiveMaintenancePermit → ℕ → ℕ
gain_exclusive (ok p) n = n + 1
gain_exclusive (err e) n = n

abbrev pub gain_waiter : Result GateAcquireError QueuedMaintenance → List ℕ → List ℕ
gain_waiter (ok w) ts = ts ++ w.ticket ∷ []
gain_waiter (err e) ts = ts

abbrev pub without : ℕ → List ℕ → List ℕ
without t = keep (λ x. not (x == t))

abbrev waiter : ℕ → QueuedMaintenance
waiter t = record { ticket = t; claimed = false }

abbrev after_poll :
    ℕ → System → GateInner × Poll (Result GateAcquireError ExclusiveMaintenancePermit) → System
after_poll t s (g, pending) = record s { gate = g }
after_poll t s (g, ready r) = record s {
  gate = g;
  waiters = without t s.waiters;
  exclusives = gain_exclusive r s.exclusives;
}

abbrev after_normal_poll :
    ActiveOperationKind
    → System
    → GateInner × Poll (Result GateAcquireError NormalOperationPermit)
    → System
after_normal_poll k s (g, pending) = record s { gate = g }
after_normal_poll k s (g, ready r) = record s { gate = g; normals = gain_normal k r s.normals }

unfoldable pub apply : Event → System → System
apply (tries_normal k) s =
    let (g, r) = try_acquire_normal k s.gate in
    record s { gate = g; normals = gain_normal k r s.normals }
apply (polls_normal k) s = after_normal_poll k s (poll_normal k s.gate)
apply (drops_normal k) s =
    let (g, p) = release_normal (record { held = true; kind = k }) s.gate in
    record s { gate = g; normals = set_slot k s.normals (slot k s.normals - 1) }
apply tries_maintenance s =
    let (g, r) = try_acquire_maintenance s.gate in
    record s { gate = g; exclusives = gain_exclusive r s.exclusives }
apply registers s =
    let (g, r) = register s.gate in record s { gate = g; waiters = gain_waiter r s.waiters }
apply (polls_maintenance t) s = after_poll t s (poll_maintenance (waiter t) s.gate)
apply (abandons t) s = record s {
  gate = drop_queued (waiter t) s.gate;
  waiters = without t s.waiters;
}
apply drops_exclusive s =
    let (g, p) = release_exclusive (record { held = true }) s.gate in
    record s { gate = g; exclusives = s.exclusives - 1 }
apply shuts_down s = record s { gate = shutdown s.gate }

-- A permit is dropped by a holder, and a waiter polls or is dropped while it is registered.
abbrev pub Enabled : Event → System → Type 0
Enabled (drops_normal k) s = 0 < slot k s.normals
Enabled drops_exclusive s = 0 < s.exclusives
Enabled (polls_maintenance t) s = any (λ x. x == t) s.waiters ≡ true
Enabled (abandons t) s = any (λ x. x == t) s.waiters ≡ true
Enabled _ s = Unit

pub data Step (s : System) : System → Type 0 where
  takes : (e : Event) → Enabled e s → Step s (apply e s)

pub data Reach : System → Type 0 where
  initial : Reach start
  later : {s t : System} → Reach s → Step s t → Reach t
