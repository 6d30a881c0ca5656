-- ===== src/Gate/Ops.antt =====
-- src-tauri/src/maintenance/gate.rs: the operations of `MaintenanceGate`, of the permits and of the
-- queued waiter. Each critical section under the mutex is one function from the gate to the gate
-- and its result. A turn of an `async` loop is `poll_…`; `pending` is the wait on `notified`.
use textbook_lens.Base.{
  ℕ, ◌-◌, Bool, true, false, not, ◌&&◌, ◌||◌, none, some, List, [], ◌∷◌, ◌++◌, ltb, ◌==◌,
  if◌then◌else◌, is_empty, keep, Result, ok, err, checked_add, u64_max,
}
use textbook_lens.Gate.Defs.{
  ActiveOperationKind, slot, set_slot, GateInner, notify_waiters, GateAcquireError, busy,
  refused_shutting_down, capacity_exceeded, MaintenanceStatusDto, snapshot, increment_active,
  active_total,
}

-- `held` says whether `inner` is still `Some`.
pub record NormalOperationPermit : Type 0 where
  pub held : Bool
  pub kind : ActiveOperationKind

pub record ExclusiveMaintenancePermit : Type 0 where
  pub held : Bool

pub record QueuedMaintenance : Type 0 where
  pub ticket : ℕ
  pub claimed : Bool

pub data Poll (A : Type 0) : Type 0 where
  pending : Poll A
  ready : A → Poll A

-- `increment_active(&mut state, kind)?` and the permit.
unfoldable pub admit_normal :
    ActiveOperationKind → GateInner → GateInner × Result GateAcquireError NormalOperationPermit
admit_normal k g = elim (increment_active k g.state) [
  | ok s ↦ (record g { state = s }, ok (record { held = true; kind = k }))
  | err e ↦ (g, err e)
]

unfoldable pub try_acquire_normal :
    ActiveOperationKind → GateInner → GateInner × Result GateAcquireError NormalOperationPermit
try_acquire_normal k g =
    if g.state.shutting_down
    then (g, err refused_shutting_down)
    else if g.state.exclusive || not (is_empty g.state.waiting_maintenance)
    then (g, err (busy (snapshot g.state)))
    else admit_normal k g

-- A turn of the loop of `acquire_normal`.
unfoldable pub poll_normal :
    ActiveOperationKind
    → GateInner
    → GateInner × Poll (Result GateAcquireError NormalOperationPermit)
poll_normal k g =
    if g.state.shutting_down
    then (g, ready (err refused_shutting_down))
    else if not g.state.exclusive && is_empty g.state.waiting_maintenance
    then (let (g', r) = admit_normal k g in (g', ready r))
    else (g, pending)

-- `active_total(&state)? > 0` of `try_acquire_maintenance`, reached if nothing else is busy.
unfoldable pub claim_idle :
    GateInner
    → Result GateAcquireError ℕ
    → GateInner × Result GateAcquireError ExclusiveMaintenancePermit
claim_idle g (err e) = (g, err e)
claim_idle g (ok total) =
    if ltb 0 total
    then (g, err (busy (snapshot g.state)))
    else (record g { state = record (g.state) { exclusive = true } }, ok (record { held = true }))

unfoldable pub try_acquire_maintenance :
    GateInner → GateInner × Result GateAcquireError ExclusiveMaintenancePermit
unfolding claim_idle
try_acquire_maintenance g =
    if g.state.shutting_down
    then (g, err refused_shutting_down)
    else if g.state.exclusive || not (is_empty g.state.waiting_maintenance)
    then (g, err (busy (snapshot g.state)))
    else claim_idle g (active_total g.state)

-- `QueuedMaintenance::register`
unfoldable pub register : GateInner → GateInner × Result GateAcquireError QueuedMaintenance
register g =
    if g.state.shutting_down
    then (g, err refused_shutting_down)
    else elim (checked_add u64_max g.state.next_ticket 1) [
      | none ↦ (g, err capacity_exceeded)
      | some next ↦ (
        notify_waiters (record g {
          state = record (g.state) {
            next_ticket = next;
            waiting_maintenance = g.state.waiting_maintenance ++ g.state.next_ticket ∷ [];
          };
        }),
        ok (record { ticket = g.state.next_ticket; claimed = false }),
      )
    ]

-- `Drop for QueuedMaintenance`
unfoldable pub drop_queued : QueuedMaintenance → GateInner → GateInner
drop_queued w g =
    if w.claimed
    then g
    else notify_waiters (record g {
      state = record (g.state) {
        waiting_maintenance =
            keep (λ candidate. not (candidate == w.ticket)) g.state.waiting_maintenance;
      };
    })

-- `waiting_maintenance.front() == Some(&ticket)`
abbrev pub is_front : ℕ → List ℕ → Bool
is_front t [] = false
is_front t (x ∷ xs) = x == t

-- `waiting_maintenance.pop_front()`
abbrev pub pop_front : List ℕ → List ℕ
pop_front [] = []
pop_front (x ∷ xs) = xs

-- The guard of the loop once the total is known, with the claim.
unfoldable pub claim_front :
    QueuedMaintenance
    → GateInner
    → Result GateAcquireError ℕ
    → GateInner × QueuedMaintenance × Poll (Result GateAcquireError ExclusiveMaintenancePermit)
claim_front w g (err e) = (g, w, ready (err e))
claim_front w g (ok total) =
    if total == 0 && is_front w.ticket g.state.waiting_maintenance
    then (
      record g {
        state = record (g.state) {
          waiting_maintenance = pop_front g.state.waiting_maintenance;
          exclusive = true;
        };
      },
      record w { claimed = true },
      ready (ok (record { held = true })),
    )
    else (g, w, pending)

-- A turn of the loop of `acquire_maintenance`.
unfoldable pub maintenance_turn :
    QueuedMaintenance
    → GateInner
    → GateInner × QueuedMaintenance × Poll (Result GateAcquireError ExclusiveMaintenancePermit)
unfolding claim_front
maintenance_turn w g =
    if g.state.shutting_down
    then (g, w, ready (err refused_shutting_down))
    else if g.state.exclusive
    then (g, w, pending)
    else claim_front w g (active_total g.state)

-- The turn, and the drop of the waiter when the function returns: two locked blocks of the source as
-- one step, so that no other task comes in between.
unfoldable pub poll_maintenance :
    QueuedMaintenance
    → GateInner
    → GateInner × Poll (Result GateAcquireError ExclusiveMaintenancePermit)
poll_maintenance w g =
    let (g', w', r) = maintenance_turn w g in
    elim r [ pending ↦ (g', pending) | ready result ↦ (drop_queued w' g', ready result) ]

-- `NormalOperationPermit::release`, which its `Drop` calls too.
unfoldable pub release_normal :
    NormalOperationPermit → GateInner → GateInner × NormalOperationPermit
release_normal p g =
    if p.held
    then (let n = slot p.kind g.state.active in
        let active' =
          (if ltb 0 n then set_slot p.kind g.state.active (n - 1) else g.state.active) in
        (
          notify_waiters (record g { state = record (g.state) { active = active' } }),
          record p { held = false },
        ))
    else (g, p)

-- `ExclusiveMaintenancePermit::release`, which its `Drop` calls too.
unfoldable pub release_exclusive :
    ExclusiveMaintenancePermit → GateInner → GateInner × ExclusiveMaintenancePermit
release_exclusive p g =
    if p.held
    then (
      notify_waiters (record g { state = record (g.state) { exclusive = false } }),
      record { held = false },
    )
    else (g, p)

unfoldable pub shutdown : GateInner → GateInner
shutdown g = notify_waiters (record g { state = record (g.state) { shutting_down = true } })

unfoldable pub status : GateInner → MaintenanceStatusDto
status g = snapshot g.state
