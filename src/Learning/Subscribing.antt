-- ===== src/Learning/Subscribing.antt =====
-- A new subscriber of a request in src-tauri/src/learning/registry.rs.
use textbook_lens.Base.{
  ℕ, refl, inl, inr, not, List, [], ◌∷◌, ◌++◌, arith, ◌==◌, if◌then◌else◌, keep, drop, length,
  Bool-cases,
}
use textbook_lens.Learning.Entry.{
  RegistryEntry, Subscriber, snapshot, max_subscribers_per_request, subscribe_entry,
}
use textbook_lens.Learning.Sound.{UpToDate, IsSound, Keeps}

kept-UpToDate :
    (seq subscriber : ℕ) (ks : List Subscriber)
    → UpToDate seq ks
    → UpToDate seq (keep (λ k. not (k.id == subscriber)) ks)
kept-UpToDate seq subscriber [] u = tt
kept-UpToDate seq subscriber (k ∷ ks) u = ground (arith, kept-UpToDate seq subscriber ks)

added-UpToDate :
    (seq subscriber : ℕ) (ks : List Subscriber)
    → UpToDate seq ks
    → UpToDate seq (ks ++ record { id = subscriber; after_seq = seq } ∷ [])
added-UpToDate seq subscriber [] u = (refl, tt)
added-UpToDate seq subscriber (k ∷ ks) u = (u.0, added-UpToDate seq subscriber ks u.1)

room-UpToDate :
    (seq : ℕ) (ks : List Subscriber) (subscriber : ℕ)
    → UpToDate seq ks
    → UpToDate seq (
        (if length ks == max_subscribers_per_request then drop 1 ks else ks)
        ++ record { id = subscriber; after_seq = seq } ∷ [])
room-UpToDate seq [] subscriber u = (refl, tt)
room-UpToDate seq (k ∷ ks) subscriber u =
    elim (Bool-cases (length (k ∷ ks) == max_subscribers_per_request)) [
      | inl full ↦ rw full (added-UpToDate seq subscriber ks u.1)
      | inr room ↦ rw room (added-UpToDate seq subscriber (k ∷ ks) u)
    ]

pub subscribe_entry-Keeps :
    (after_seq subscriber : ℕ) (e : RegistryEntry)
    → IsSound e
    → Keeps e (subscribe_entry after_seq subscriber e)
unfolding subscribe_entry snapshot
subscribe_entry-Keeps after_seq subscriber e v = ground (
  arith,
  kept-UpToDate e.seq subscriber e.subscribers,
  room-UpToDate e.seq (keep (λ k. not (k.id == subscriber)) e.subscribers) subscriber,
)
