-- ===== src/Gate/Examples.antt =====
-- Runs of the gate: two maintenance calls that queue behind an indexing operation.
use textbook_lens.Base.{
  ℕ, ◌≤◌, ◌<◌, ◌≡◌, refl, ◌⊎◌, inl, ◌↔◌, true, [], ◌∷◌, arith, is_ok, All, length,
}
use textbook_lens.Gate.Defs.{
  import, indexing, no_counts, increment_active, active_total, maintenance_available,
}
use textbook_lens.Gate.Ops.{
  admit_normal, try_acquire_normal, poll_normal, claim_idle, try_acquire_maintenance, register,
  drop_queued, claim_front, maintenance_turn, poll_maintenance, release_normal, release_exclusive,
  shutdown, status,
}
use textbook_lens.Gate.System.{
  System, start, tries_normal, drops_normal, registers, shuts_down, polls_maintenance, abandons,
  apply, takes, Reach, initial, later,
}
use textbook_lens.Gate.Exclusion.{Gains, mutual_exclusion, Step-admits_no_normal}
use textbook_lens.Gate.Fairness.{oldest_is_served, oldest_gets_permit}
use textbook_lens.Gate.Wakeups.{NormalSleeps, MaintenanceSleeps, normal_wakes, maintenance_wakes}
use textbook_lens.Gate.Status.{available_iff, shutdown_is_final}

abbrev indexing_runs : System
indexing_runs = apply (tries_normal indexing) start

-- Tickets 0 and 1 wait while one indexing operation runs.
abbrev two_wait : System
two_wait = apply registers (apply registers indexing_runs)

abbrev drained : System
drained = apply (drops_normal indexing) two_wait

abbrev maintained : System
maintained = apply (polls_maintenance 0) drained

-- All operations of the gate, for runs.
runs : ℕ
unfolding apply try_acquire_normal admit_normal increment_active register release_normal poll_normal
    poll_maintenance maintenance_turn claim_front active_total drop_queued try_acquire_maintenance
    claim_idle release_exclusive shutdown
runs = 0

two_wait_lem :
    (two_wait.waiters ≡ 0 ∷ 1 ∷ [])
    × (two_wait.normals ≡ record no_counts { indexings = 1 })
    × (two_wait.exclusives ≡ 0)
unfolding runs
two_wait_lem = (refl, refl, refl)

two_wait-Reach : Reach two_wait
two_wait-Reach =
    later (later (later initial (takes (tries_normal indexing) tt)) (takes registers tt))
      (takes registers tt)

drained-Reach : Reach drained
unfolding runs
drained-Reach = later two_wait-Reach (takes (drops_normal indexing) (omega arith))

maintained-Reach : Reach maintained
unfolding runs
maintained-Reach = later drained-Reach (takes (polls_maintenance 0) refl)

mutual_exclusion_example : (maintained.exclusives ≡ 1) × (maintained.normals ≡ no_counts)
unfolding runs
mutual_exclusion_example = mutual_exclusion maintained-Reach (omega arith)

Step-admits_no_normal_example :
    ¬ Gains two_wait.normals (apply (tries_normal import) two_wait).normals
unfolding runs
Step-admits_no_normal_example =
    Step-admits_no_normal two_wait-Reach (takes (tries_normal import) tt) (inl (λ e. cc))

oldest_is_served_example : (maintained.waiters ≡ 1 ∷ []) × All (λ u. 0 < u) (1 ∷ [])
unfolding runs
oldest_is_served_example =
    oldest_is_served 0 (1 ∷ []) drained-Reach (takes (polls_maintenance 0) refl) refl (omega arith)

oldest_gets_permit_example : (maintained.exclusives ≡ 1) × (maintained.waiters ≡ 1 ∷ [])
unfolding runs
oldest_gets_permit_example = oldest_gets_permit 0 (1 ∷ []) drained-Reach refl refl refl refl

normal_wakes_example :
    NormalSleeps import (apply (abandons 0) two_wait).gate
    ⊎ (two_wait.gate.changed < (apply (abandons 0) two_wait).gate.changed)
unfolding runs
normal_wakes_example = normal_wakes import two_wait-Reach (takes (abandons 0) refl) refl

maintenance_wakes_example :
    MaintenanceSleeps 0 drained.gate ⊎ (two_wait.gate.changed < drained.gate.changed)
unfolding runs
maintenance_wakes_example =
    maintenance_wakes 0 two_wait-Reach (takes (drops_normal indexing) (omega arith)) refl refl

available_iff_example :
    ((status maintained.gate).code ≡ maintenance_available)
    ↔ (is_ok (try_acquire_maintenance maintained.gate).1 ≡ true)
available_iff_example = available_iff maintained-Reach

abbrev closing : System
closing = apply shuts_down two_wait

shutdown_is_final_example :
    ((apply (polls_maintenance 0) closing).gate.state.shutting_down ≡ true)
    × (¬ Gains closing.normals (apply (polls_maintenance 0) closing).normals)
    × ((apply (polls_maintenance 0) closing).exclusives ≤ closing.exclusives)
    × (length (apply (polls_maintenance 0) closing).waiters ≤ length closing.waiters)
unfolding runs
shutdown_is_final_example = shutdown_is_final {s = closing} (takes (polls_maintenance 0) refl) refl
