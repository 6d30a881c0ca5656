-- ===== src/Gate/Exclusion.antt =====
-- Safety of the gate of src-tauri/src/maintenance/gate.rs in every reachable state.
use textbook_lens.Base.{◌<◌, ◌≡◌, ◌⊎◌, ◌≢◌, [], arith}
use textbook_lens.Gate.Defs.{import, indexing, learning, storage, Counts, no_counts}
use textbook_lens.Gate.Ops.{try_acquire_normal, poll_normal, poll_maintenance}
use textbook_lens.Gate.System.{
  System, Event, tries_normal, polls_normal, drops_normal, apply, Step, takes, Reach,
}
use textbook_lens.Gate.Invariant.{Inv, Reach-Inv}

-- In every reachable state, while an exclusive permit is held it is the only one, and no normal
-- permit of any kind is held.
pub mutual_exclusion :
    {s : System} → Reach s → 0 < s.exclusives → (s.exclusives ≡ 1) × (s.normals ≡ no_counts)
mutual_exclusion {s} r h = ground (arith, Reach-Inv r)

-- Some kind holds more permits than before.
abbrev pub Gains : Counts → Counts → Type 0
Gains c d =
    (c.imports < d.imports)
    ⊎ (c.indexings < d.indexings)
    ⊎ (c.learnings < d.learnings)
    ⊎ (c.storages < d.storages)

no_gain :
    (e : Event) (s : System)
    → Inv s
    → (s.waiters ≢ []) ⊎ (0 < s.exclusives)
    → ¬ Gains s.normals (apply e s).normals
unfolding apply try_acquire_normal poll_normal poll_maintenance
no_gain (tries_normal k) s v h = ground arith
no_gain (polls_normal k) s v h = ground arith
no_gain (drops_normal import) s v h = ground arith
no_gain (drops_normal indexing) s v h = ground arith
no_gain (drops_normal learning) s v h = ground arith
no_gain (drops_normal storage) s v h = ground arith
no_gain _ s v h = ground arith

-- While a maintenance call waits or maintenance runs, no step hands out a normal permit.
pub Step-admits_no_normal :
    {s t : System}
    → Reach s
    → Step s t
    → (s.waiters ≢ []) ⊎ (0 < s.exclusives)
    → ¬ Gains s.normals t.normals
Step-admits_no_normal {s} r (takes e en) h = no_gain e s (Reach-Inv r) h
