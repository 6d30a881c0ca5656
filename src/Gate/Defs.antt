-- ===== src/Gate/Defs.antt =====
-- src-tauri/src/maintenance/gate.rs, and the kinds and status values of
-- src-tauri/src/domain/maintenance.rs: the state behind the mutex and its pure helpers.
-- The array `active` is a record with one count for each kind, in the order of `ALL`.
use textbook_lens.Base.{
  ℕ, ◌+◌, Bool, false, Option, none, some, List, [], ◌∷◌, ltb, if◌then◌else◌, is_empty, any, Result,
  ok, ◌>>=◌, ok_or, checked_add, u32_max, min,
}

pub data ActiveOperationKind : Type 0 where
  import indexing learning storage : ActiveOperationKind

-- `ActiveOperationKind::ALL`
abbrev pub all_kinds : List ActiveOperationKind
all_kinds = import ∷ indexing ∷ learning ∷ storage ∷ []

-- `[u32; ActiveOperationKind::ALL.len()]`
pub record Counts : Type 0 where
  pub imports : ℕ
  pub indexings : ℕ
  pub learnings : ℕ
  pub storages : ℕ

-- `active[kind.index()]`
abbrev pub slot : ActiveOperationKind → Counts → ℕ
slot import c = c.imports
slot indexing c = c.indexings
slot learning c = c.learnings
slot storage c = c.storages

-- `active[kind.index()] = n`
abbrev pub set_slot : ActiveOperationKind → Counts → ℕ → Counts
set_slot import c n = record c { imports = n }
set_slot indexing c n = record c { indexings = n }
set_slot learning c n = record c { learnings = n }
set_slot storage c n = record c { storages = n }

abbrev pub no_counts : Counts
no_counts = record { imports = 0; indexings = 0; learnings = 0; storages = 0 }

-- `active.iter()`
abbrev pub count_list : Counts → List ℕ
count_list c = c.imports ∷ c.indexings ∷ c.learnings ∷ c.storages ∷ []

pub record GateState : Type 0 where
  pub active : Counts
  pub waiting_maintenance : List ℕ
  pub next_ticket : ℕ
  pub exclusive : Bool
  pub shutting_down : Bool

-- `GateState::default()`
abbrev pub default_state : GateState
default_state = record {
  active = no_counts;
  waiting_maintenance = [];
  next_ticket = 0;
  exclusive = false;
  shutting_down = false;
}

-- `changed` is the number of `notify_waiters` calls on the `Notify` so far.
pub record GateInner : Type 0 where
  pub state : GateState
  pub changed : ℕ

abbrev pub notify_waiters : GateInner → GateInner
notify_waiters g = record g { changed = g.changed + 1 }

pub data MaintenanceStatusCode : Type 0 where
  maintenance_available normal_operations_active maintenance_waiting maintenance_exclusive :
      MaintenanceStatusCode
  maintenance_shutting_down : MaintenanceStatusCode

pub record ActiveOperationSummaryDto : Type 0 where
  pub kind : ActiveOperationKind
  pub count : ℕ

pub record MaintenanceStatusDto : Type 0 where
  pub code : MaintenanceStatusCode
  pub active_operations : List ActiveOperationSummaryDto

pub data GateAcquireError : Type 0 where
  busy : MaintenanceStatusDto → GateAcquireError
  refused_shutting_down : GateAcquireError
  capacity_exceeded : GateAcquireError

abbrev pub max_safe_active_operation_count : ℕ
max_safe_active_operation_count = 99

-- The `filter_map` of `snapshot`.
abbrev pub summaries : List ActiveOperationKind → Counts → List ActiveOperationSummaryDto
summaries [] c = []
summaries (k ∷ ks) c =
    let rest = summaries ks c in
    if ltb 0 (slot k c)
    then record { kind = k; count = min (slot k c) max_safe_active_operation_count } ∷ rest
    else rest

unfoldable pub snapshot_code : GateState → MaintenanceStatusCode
snapshot_code s =
    if s.shutting_down
    then maintenance_shutting_down
    else if s.exclusive
    then maintenance_exclusive
    else if is_empty s.waiting_maintenance
    then (if any (λ n. ltb 0 n) (count_list s.active)
        then normal_operations_active
        else maintenance_available)
    else maintenance_waiting

unfoldable pub snapshot : GateState → MaintenanceStatusDto
unfolding snapshot_code
snapshot s = record { code = snapshot_code s; active_operations = summaries all_kinds s.active }

unfoldable pub increment_active :
    ActiveOperationKind → GateState → Result GateAcquireError GateState
increment_active k s = do
  n ← ok_or (checked_add u32_max (slot k s.active) 1) capacity_exceeded
  ok (record s { active = set_slot k s.active n })

-- The `try_fold` of `active_total`.
abbrev pub fold_total : List ℕ → ℕ → Option ℕ
fold_total [] total = some total
fold_total (n ∷ ns) total = elim (checked_add u32_max total n) [
  | none ↦ none
  | some sum ↦ fold_total ns sum
]

unfoldable pub active_total : GateState → Result GateAcquireError ℕ
active_total s = ok_or (fold_total (count_list s.active) 0) capacity_exceeded
