-- ===== src/Index/Aggregate.antt =====
-- The aggregate status of a run, src-tauri/src/domain/indexing.rs, over the rows that
-- `get_run_aggregate` of src-tauri/src/db/indexing.rs reads.
use textbook_lens.Base.{
  ℕ, ◌+◌, ◌<◌, ◌≡◌, refl, ◌≢◌, ◌↔◌, Bool, true, false, List, [], ◌∷◌, arith, All,
}
use textbook_lens.Index.Status.{
  IndexPageStatus, not_required, queued, rendering, sending, parsing, validating, indexed,
  needs_review, failed, StatusCounts, record_status, all_ready, aggregate_status,
}

-- `IndexPageStatusCountsDto::default`
abbrev pub no_counts : StatusCounts
no_counts = record {
  total = 0;
  not_required = 0;
  queued = 0;
  rendering = 0;
  sending = 0;
  parsing = 0;
  validating = 0;
  indexed = 0;
  needs_review = 0;
  failed = 0;
  cancelled = 0;
}

-- The loop of `get_run_aggregate`.
unfoldable pub record_all : List IndexPageStatus → StatusCounts → StatusCounts
record_all [] c = c
record_all (s ∷ rest) c = record_all rest (record_status s c)

abbrev pub is_usable : IndexPageStatus → Bool
is_usable not_required = true
is_usable indexed = true
is_usable _ = false

-- How many pages are counted as anything but usable.
abbrev unusable : StatusCounts → ℕ
unusable c =
    c.queued + c.rendering + c.sending + c.parsing + c.validating + c.needs_review + c.failed
    + c.cancelled

record_usable :
    (s : IndexPageStatus) (c : StatusCounts)
    → (0 < (record_status s c).total)
      × ((unusable (record_status s c) ≡ 0) ↔ ((is_usable s ≡ true) × (unusable c ≡ 0)))
unfolding record_status
record_usable not_required c = ground arith
record_usable queued c = ground arith
record_usable rendering c = ground arith
record_usable sending c = ground arith
record_usable parsing c = ground arith
record_usable validating c = ground arith
record_usable indexed c = ground arith
record_usable needs_review c = ground arith
record_usable failed c = ground arith
record_usable IndexPageStatus.cancelled c = ground arith

record_all_usable :
    (ss : List IndexPageStatus) (c : StatusCounts)
    → (unusable (record_all ss c) ≡ 0) ↔ (All (λ s. is_usable s ≡ true) ss × (unusable c ≡ 0))
unfolding record_all
record_all_usable [] c = (λ e. (tt, e), λ h. h.1)
record_all_usable (s ∷ rest) c = (
  λ e.
      let tail = (record_all_usable rest (record_status s c)).0 e in
      let head = (record_usable s c).1.0 tail.1 in ((head.0, tail.0), head.1),
  λ h. (record_all_usable rest (record_status s c)).1 (h.0.1, (record_usable s c).1.1 (h.0.0, h.1)),
)

record_all_counts :
    (ss : List IndexPageStatus) (c : StatusCounts) → 0 < c.total → 0 < (record_all ss c).total
unfolding record_all
record_all_counts [] c h = h
record_all_counts (s ∷ rest) c h = record_all_counts rest (record_status s c) (record_usable s c).0

ready_counts :
    (c : StatusCounts) → (aggregate_status c ≡ all_ready) ↔ ((0 < c.total) × (unusable c ≡ 0))
unfolding aggregate_status
ready_counts c = ground arith

nothing_ready : ¬ (aggregate_status (record_all [] no_counts) ≡ all_ready)
unfolding record_all aggregate_status
nothing_ready e = cc

some_total :
    (s : IndexPageStatus) (rest : List IndexPageStatus)
    → 0 < (record_all (s ∷ rest) no_counts).total
unfolding record_all
some_total s rest = record_all_counts rest (record_status s no_counts) (record_usable s no_counts).0

-- A run is reported as ready exactly when it has a page and each of its pages is indexed or needs
-- no analysis.
pub aggregate_status-all_ready :
    (ss : List IndexPageStatus)
    → (aggregate_status (record_all ss no_counts) ≡ all_ready)
      ↔ ((ss ≢ []) × All (λ s. is_usable s ≡ true) ss)
aggregate_status-all_ready [] = (λ e. absurd (nothing_ready e), λ h. absurd (h.0 refl))
aggregate_status-all_ready (s ∷ rest) = (
  λ e. (
    λ q. cc,
    ((record_all_usable (s ∷ rest) no_counts).0
        ((ready_counts (record_all (s ∷ rest) no_counts)).0 e).1).0,
  ),
  λ h.
      (ready_counts (record_all (s ∷ rest) no_counts)).1
        (some_total s rest, (record_all_usable (s ∷ rest) no_counts).1 (h.1, refl)),
)
