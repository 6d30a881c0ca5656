-- ===== src/Gate/Wakeups.antt =====
-- The notifications of src-tauri/src/maintenance/gate.rs: no waiter sleeps through its turn.
use textbook_lens.Base.{ℕ, ◌<◌, ◌≡◌, ◌⊎◌, true, false, arith, any, ◌==◌}
use textbook_lens.Gate.Defs.{ActiveOperationKind, GateInner}
use textbook_lens.Gate.Ops.{
  Poll, admit_normal, try_acquire_normal, poll_normal, claim_idle, try_acquire_maintenance,
  register, drop_queued, claim_front, maintenance_turn, poll_maintenance, release_normal,
  release_exclusive, shutdown,
}
use textbook_lens.Gate.System.{System, Event, tries_normal, apply, Enabled, Step, takes, Reach}
use textbook_lens.Gate.Invariant.{Inv, Reach-Inv}

-- A turn of `acquire_maintenance` with this ticket would wait.
abbrev pub MaintenanceSleeps : ℕ → GateInner → Type 0
MaintenanceSleeps t g =
    (poll_maintenance (record { ticket = t; claimed = false }) g).1 ≡ Poll.pending

-- A turn of `acquire_normal` would wait.
abbrev pub NormalSleeps : ActiveOperationKind → GateInner → Type 0
NormalSleeps k g = (poll_normal k g).1 ≡ Poll.pending

normal_wakes_at :
    (e : Event) (k : ActiveOperationKind) (s : System)
    → Inv s
    → Enabled e s
    → NormalSleeps k s.gate
    → NormalSleeps k (apply e s).gate ⊎ (s.gate.changed < (apply e s).gate.changed)
unfolding apply poll_normal try_acquire_normal admit_normal try_acquire_maintenance claim_idle
    register drop_queued poll_maintenance maintenance_turn claim_front release_normal
    release_exclusive shutdown
normal_wakes_at (tries_normal k') k s v en p = ground arith
normal_wakes_at _ k s v en p = ground arith

-- A step that ends the wait of an `acquire_normal` call notifies the waiters.
pub normal_wakes :
    {s s' : System} (k : ActiveOperationKind)
    → Reach s
    → Step s s'
    → NormalSleeps k s.gate
    → NormalSleeps k s'.gate ⊎ (s.gate.changed < s'.gate.changed)
normal_wakes {s} k r (takes e en) p = normal_wakes_at e k s (Reach-Inv r) en p

maintenance_wakes_at :
    (e : Event) (t : ℕ) (s : System)
    → Inv s
    → Enabled e s
    → any (λ x. x == t) s.waiters ≡ true
    → MaintenanceSleeps t s.gate
    → MaintenanceSleeps t (apply e s).gate ⊎ (s.gate.changed < (apply e s).gate.changed)
unfolding apply poll_normal try_acquire_normal admit_normal try_acquire_maintenance claim_idle
    register drop_queued poll_maintenance maintenance_turn claim_front release_normal
    release_exclusive shutdown
maintenance_wakes_at (tries_normal k') t s v en q p = ground arith
maintenance_wakes_at _ t s v en q p = ground arith

-- A step that ends the wait of a registered `acquire_maintenance` call notifies the waiters.
pub maintenance_wakes :
    {s s' : System} (t : ℕ)
    → Reach s
    → Step s s'
    → any (λ x. x == t) s.waiters ≡ true
    → MaintenanceSleeps t s.gate
    → MaintenanceSleeps t s'.gate ⊎ (s.gate.changed < s'.gate.changed)
maintenance_wakes {s} t r (takes e en) q p = maintenance_wakes_at e t s (Reach-Inv r) en q p
