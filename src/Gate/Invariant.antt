-- ===== src/Gate/Invariant.antt =====
-- What holds between two critical sections of src-tauri/src/maintenance/gate.rs.
use textbook_lens.Base.{
  ℕ, suc, ◌+◌, ◌≤◌, ◌<◌, ◌≡◌, refl, true, List, [], ◌∷◌, ◌++◌, ok, arith, u32_max, u64_max,
  if◌then◌else◌, All, length,
}
use textbook_lens.Gate.Defs.{
  ActiveOperationKind, import, Counts, slot, no_counts, GateState, increment_active, active_total,
}
use textbook_lens.Gate.Ops.{
  admit_normal, try_acquire_normal, poll_normal, claim_idle, try_acquire_maintenance, register,
  is_front, pop_front, drop_queued, claim_front, maintenance_turn, poll_maintenance, release_normal,
  release_exclusive, shutdown,
}
use textbook_lens.Gate.System.{
  System, start, Event, tries_normal, polls_normal, drops_normal, tries_maintenance, registers,
  drops_exclusive, shuts_down, polls_maintenance, abandons, apply, without, Enabled, Step, takes,
  Reach, initial, later,
}

-- Tickets rise along the queue, from `lo` on and below `hi`.
abbrev pub Ascending : ℕ → List ℕ → ℕ → Type 0
Ascending lo [] hi = lo ≤ hi
Ascending lo (t ∷ ts) hi = (lo ≤ t) × Ascending (suc t) ts hi

pub Ascending-mono :
    (lo lo' : ℕ) (ts : List ℕ) (hi : ℕ) → lo' ≤ lo → Ascending lo ts hi → Ascending lo' ts hi
Ascending-mono lo lo' [] hi h a = omega arith
Ascending-mono lo lo' (t ∷ ts) hi h a = (omega arith, a.1)

pub Ascending-bounds : (lo : ℕ) (ts : List ℕ) (hi : ℕ) → Ascending lo ts hi → lo ≤ hi
Ascending-bounds lo [] hi a = a
Ascending-bounds lo (t ∷ ts) hi a = omega (arith, Ascending-bounds (suc t) ts hi a.1)

pub Ascending-push :
    (lo : ℕ) (ts : List ℕ) (hi : ℕ) → Ascending lo ts hi → Ascending lo (ts ++ hi ∷ []) (hi + 1)
Ascending-push lo [] hi a = (a, omega arith)
Ascending-push lo (t ∷ ts) hi a = (a.0, Ascending-push (suc t) ts hi a.1)

pub Ascending-without :
    (t lo : ℕ) (ts : List ℕ) (hi : ℕ) → Ascending lo ts hi → Ascending lo (without t ts) hi
Ascending-without t lo [] hi a = a
Ascending-without t lo (x ∷ xs) hi a =
    let rest = Ascending-without t (suc x) xs hi a.1 in
    let down = Ascending-mono (suc x) lo (without t xs) hi (omega arith) rest in
    ground (arith, rest, down)

pub without_above :
    (t lo : ℕ) (ts : List ℕ) (hi : ℕ) → Ascending lo ts hi → t < lo → without t ts ≡ ts
without_above t lo [] hi a h = refl
without_above t lo (x ∷ xs) hi a h = ground (arith, without_above t (suc x) xs hi a.1)

pub length-without : (t : ℕ) (ts : List ℕ) → length (without t ts) ≤ length ts
length-without t [] = omega arith
length-without t (x ∷ xs) = ground (arith, length-without t xs)

abbrev pub AllCounts : (ℕ → Type 0) → Counts → Type 0
AllCounts P c = P c.imports × P c.indexings × P c.learnings × P c.storages

pub Ascending-later :
    (lo t : ℕ) (ts : List ℕ) (hi : ℕ) → t < lo → Ascending lo ts hi → All (λ u. t < u) ts
Ascending-later lo t [] hi h a = tt
Ascending-later lo t (x ∷ xs) hi h a =
    (omega arith, Ascending-later (suc x) t xs hi (omega arith) a.1)

pub record Inv (s : System) : Type 0 where
  pub accounted : s.gate.state.active ≡ s.normals
  pub queued : s.gate.state.waiting_maintenance ≡ s.waiters
  pub flagged : (if s.gate.state.exclusive then 1 else 0) ≡ s.exclusives
  pub alone : s.gate.state.exclusive ≡ true → s.normals ≡ no_counts
  pub ordered : Ascending 0 s.waiters s.gate.state.next_ticket
  pub counted : AllCounts (λ n. n ≤ u32_max) s.normals
  pub numbered : s.gate.state.next_ticket ≤ u64_max

start-Inv : Inv start
start-Inv = record {
  accounted = refl;
  queued = refl;
  flagged = refl;
  alone = λ e. cc;
  ordered = omega arith;
  counted = omega arith;
  numbered = omega arith;
}

pub active_total-zero : (s : GateState) → active_total s ≡ ok 0 → s.active ≡ no_counts
unfolding active_total
active_total-zero s e = ground arith

tries_normal-Inv : (k : ActiveOperationKind) (s : System) → Inv s → Inv (apply (tries_normal k) s)
unfolding apply try_acquire_normal admit_normal increment_active
tries_normal-Inv import s v = ground arith
tries_normal-Inv _ s v = ground arith

polls_normal-Inv : (k : ActiveOperationKind) (s : System) → Inv s → Inv (apply (polls_normal k) s)
unfolding apply poll_normal admit_normal increment_active
polls_normal-Inv import s v = ground arith
polls_normal-Inv _ s v = ground arith

drops_normal-Inv :
    (k : ActiveOperationKind) (s : System)
    → 0 < slot k s.normals
    → Inv s
    → Inv (apply (drops_normal k) s)
unfolding apply release_normal
drops_normal-Inv import s h v = ground arith
drops_normal-Inv _ s h v = ground arith

tries_maintenance-Inv : (s : System) → Inv s → Inv (apply tries_maintenance s)
unfolding apply try_acquire_maintenance claim_idle
tries_maintenance-Inv s v = ground (arith, active_total-zero s.gate.state)

registers-Inv : (s : System) → Inv s → Inv (apply registers s)
unfolding apply register
registers-Inv s v = ground (arith, Ascending-push 0 s.waiters s.gate.state.next_ticket v.ordered)

abandons-Inv : (t : ℕ) (s : System) → Inv s → Inv (apply (abandons t) s)
unfolding apply drop_queued
abandons-Inv t s v =
    ground (arith, Ascending-without t 0 s.waiters s.gate.state.next_ticket v.ordered)

drops_exclusive-Inv : (s : System) → 0 < s.exclusives → Inv s → Inv (apply drops_exclusive s)
unfolding apply release_exclusive
drops_exclusive-Inv s h v = ground arith

shuts_down-Inv : (s : System) → Inv s → Inv (apply shuts_down s)
unfolding apply shutdown
shuts_down-Inv s v = ground arith

pop_front-eq-without :
    (t lo : ℕ) (ts : List ℕ) (hi : ℕ)
    → Ascending lo ts hi
    → is_front t ts ≡ true
    → pop_front ts ≡ without t ts
pop_front-eq-without t lo [] hi a h = refl
pop_front-eq-without t lo (x ∷ xs) hi a h = ground (arith, without_above t (suc x) xs hi a.1)

polls_maintenance-Inv : (t : ℕ) (s : System) → Inv s → Inv (apply (polls_maintenance t) s)
unfolding apply poll_maintenance maintenance_turn claim_front drop_queued
polls_maintenance-Inv t s v = ground (
  arith,
  active_total-zero s.gate.state,
  Ascending-without t 0 s.waiters s.gate.state.next_ticket v.ordered,
  pop_front-eq-without t 0 s.waiters s.gate.state.next_ticket v.ordered,
)

-- Every critical section keeps the invariant.
pub apply-Inv : (e : Event) (s : System) → Enabled e s → Inv s → Inv (apply e s)
apply-Inv (tries_normal k) s h v = tries_normal-Inv k s v
apply-Inv (polls_normal k) s h v = polls_normal-Inv k s v
apply-Inv (drops_normal k) s h v = drops_normal-Inv k s h v
apply-Inv tries_maintenance s h v = tries_maintenance-Inv s v
apply-Inv registers s h v = registers-Inv s v
apply-Inv drops_exclusive s h v = drops_exclusive-Inv s h v
apply-Inv shuts_down s h v = shuts_down-Inv s v
apply-Inv (polls_maintenance t) s h v = polls_maintenance-Inv t s v
apply-Inv (abandons t) s h v = abandons-Inv t s v

Step-Inv : {s t : System} → Step s t → Inv s → Inv t
Step-Inv {s} (takes e h) v = apply-Inv e s h v

-- So it holds in every reachable state.
pub Reach-Inv : {s : System} → Reach s → Inv s
Reach-Inv initial = start-Inv
Reach-Inv (later r st) = Step-Inv st (Reach-Inv r)
