-- ===== src/Gate/Fairness.antt =====
-- Order and progress of maintenance in src-tauri/src/maintenance/gate.rs.
use textbook_lens.Base.{ℕ, suc, ◌<◌, ◌≡◌, false, List, ◌∷◌, arith, All, subst}
use textbook_lens.Gate.Defs.{ActiveOperationKind, no_counts, active_total}
use textbook_lens.Gate.Ops.{
  poll_normal, try_acquire_maintenance, drop_queued, claim_front, maintenance_turn,
  poll_maintenance,
}
use textbook_lens.Gate.System.{
  System, Event, tries_normal, polls_normal, polls_maintenance, apply, Enabled, Step, takes, Reach,
}
use textbook_lens.Gate.Invariant.{Inv, Ascending, Ascending-later, without_above, Reach-Inv}

polls_normal_keeps :
    (k : ActiveOperationKind) (s : System) → (apply (polls_normal k) s).exclusives ≡ s.exclusives
unfolding apply poll_normal
polls_normal_keeps k s = ground arith

serves_front :
    (e : Event) (s : System) (t : ℕ) (ts : List ℕ)
    → Enabled e s
    → Inv s
    → s.waiters ≡ t ∷ ts
    → s.exclusives < (apply e s).exclusives
    → (e ≡ polls_maintenance t) × ((apply e s).waiters ≡ ts)
unfolding apply try_acquire_maintenance poll_maintenance maintenance_turn claim_front
serves_front (tries_normal k) s t ts en v w h = ground arith
serves_front (polls_normal k) s t ts en v w h = absurd (omega (arith, polls_normal_keeps k s))
serves_front (polls_maintenance t') s t ts en v w h =
    ground (arith, without_above t (suc t) ts s.gate.state.next_ticket)
serves_front _ s t ts en v w h = ground arith

-- Maintenance is first come, first served: if a step hands out an exclusive permit while calls
-- wait, then it is a turn of the call that came first, and the other calls keep their places.
pub oldest_is_served :
    {s s' : System} (t : ℕ) (ts : List ℕ)
    → Reach s
    → Step s s'
    → s.waiters ≡ t ∷ ts
    → s.exclusives < s'.exclusives
    → (s'.waiters ≡ ts) × All (λ u. t < u) ts
oldest_is_served {s} t ts r (takes e en) w h =
    let v = Reach-Inv r in
    let rising = subst (λ l. Ascending 0 l s.gate.state.next_ticket) w v.ordered in
    ((serves_front e s t ts en v w h).1, Ascending-later (suc t) t ts _ (omega arith) rising.1)

-- No deadlock: once every permit is released and the gate is open, the next turn of the call that
-- came first gets the exclusive permit.
pub oldest_gets_permit :
    {s : System} (t : ℕ) (ts : List ℕ)
    → Reach s
    → s.waiters ≡ t ∷ ts
    → s.normals ≡ no_counts
    → s.exclusives ≡ 0
    → s.gate.state.shutting_down ≡ false
    → ((apply (polls_maintenance t) s).exclusives ≡ 1)
      × ((apply (polls_maintenance t) s).waiters ≡ ts)
unfolding apply poll_maintenance maintenance_turn claim_front active_total drop_queued
oldest_gets_permit {s} t ts r w n x o =
    let v = Reach-Inv r in
    let rising = subst (λ l. Ascending 0 l s.gate.state.next_ticket) w v.ordered in
    ground (arith, v, without_above t (suc t) ts s.gate.state.next_ticket rising.1)
