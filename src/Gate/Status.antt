-- ===== src/Gate/Status.antt =====
-- What `status` and `shutdown` of src-tauri/src/maintenance/gate.rs tell a client.
use textbook_lens.Base.{◌≤◌, ◌≡◌, ◌↔◌, true, arith, is_ok, length}
use textbook_lens.Gate.Defs.{
  import, indexing, learning, storage, GateInner, active_total, snapshot_code, snapshot,
  maintenance_available,
}
use textbook_lens.Gate.Ops.{
  NormalOperationPermit, ExclusiveMaintenancePermit, admit_normal, try_acquire_normal, poll_normal,
  claim_idle, try_acquire_maintenance, register, drop_queued, claim_front, maintenance_turn,
  poll_maintenance, release_normal, release_exclusive, shutdown, status,
}
use textbook_lens.Gate.System.{
  System, Event, drops_normal, polls_maintenance, abandons, apply, Enabled, Step, takes, Reach,
}
use textbook_lens.Gate.Invariant.{length-without}
use textbook_lens.Gate.Exclusion.{Gains}

-- In every reachable state the status says MAINTENANCE_AVAILABLE exactly when
-- `try_acquire_maintenance` would succeed.
pub available_iff :
    {s : System}
    → Reach s
    → ((status s.gate).code ≡ maintenance_available)
      ↔ (is_ok (try_acquire_maintenance s.gate).1 ≡ true)
unfolding status snapshot snapshot_code try_acquire_maintenance claim_idle active_total
available_iff {s} r = (λ h. ground arith, λ h. ground arith)

shut_at :
    (e : Event) (s : System)
    → Enabled e s
    → s.gate.state.shutting_down ≡ true
    → ((apply e s).gate.state.shutting_down ≡ true)
      × (¬ Gains s.normals (apply e s).normals)
      × ((apply e s).exclusives ≤ s.exclusives)
      × (length (apply e s).waiters ≤ length s.waiters)
unfolding apply poll_normal try_acquire_normal admit_normal try_acquire_maintenance claim_idle
    register drop_queued poll_maintenance maintenance_turn claim_front release_normal
    release_exclusive shutdown
shut_at (drops_normal import) s en h = ground arith
shut_at (drops_normal indexing) s en h = ground arith
shut_at (drops_normal learning) s en h = ground arith
shut_at (drops_normal storage) s en h = ground arith
shut_at (polls_maintenance t) s en h = ground (arith, length-without t s.waiters)
shut_at (abandons t) s en h = ground (arith, length-without t s.waiters)
shut_at _ s en h = ground arith

-- A shutdown is final: from a state that is shutting down no step leaves the shutdown,
-- hands out a permit of any kind, or registers a waiter.
pub shutdown_is_final :
    {s t : System}
    → Step s t
    → s.gate.state.shutting_down ≡ true
    → (t.gate.state.shutting_down ≡ true)
      × (¬ Gains s.normals t.normals)
      × (t.exclusives ≤ s.exclusives)
      × (length t.waiters ≤ length s.waiters)
shutdown_is_final {s} (takes e en) h = shut_at e s en h

-- An explicit `release` followed by the `Drop` of the permit releases once: the second call changes
-- neither the gate nor the permit, for both kinds of permit.
release_once :
    (p : NormalOperationPermit) (x : ExclusiveMaintenancePermit) (g : GateInner)
    → (let (g', p') = release_normal p g in release_normal p' g' ≡ (g', p'))
      × (let (g', x') = release_exclusive x g in release_exclusive x' g' ≡ (g', x'))
unfolding release_normal release_exclusive
release_once p x g = ground arith
