-- ===== src/Core/Threads/Stops.antt =====
-- The stopped threads of `ThreadTracker`.
use dapper.Base.{
  ℕ, ◌≡◌, refl, true, false, not, ◌||◌, List, [], ◌∷◌, ◌==◌, nat_eq, arith, contains, add,
  contains-add, contains-discard, nat_beq_iff, if◌then◌else◌, is_empty,
}
use dapper.Core.Threads.{
  Tracker, is_stopped, mark_stopped, mark_continued, has_stopped_threads, all_threads_continued,
}

stopped-eq-contains : (t : Tracker) (i : ℕ) → is_stopped t i ≡ contains i t.stopped_thread_ids
unfolding is_stopped
stopped-eq-contains t i = refl

some_stopped : (a : ℕ) (xs : List ℕ) → not (is_empty (add a xs)) ≡ true
unfolding add contains
some_stopped a [] = refl
some_stopped a (x ∷ xs) = ground arith

-- Stopping a thread stops that thread and no other, and some thread is stopped then; continuing a
-- thread says whether it was stopped, and takes away that thread and no other.
pub stopped_after :
    (t : Tracker) (thread i : ℕ)
    → (is_stopped (mark_stopped t thread) i ≡ (i == thread || is_stopped t i))
      × (has_stopped_threads (mark_stopped t thread) ≡ true)
      × ((mark_continued t thread).0 ≡ is_stopped t thread)
      × (is_stopped (mark_continued t thread).1 i ≡ (if thread == i then false else is_stopped t i))
unfolding is_stopped mark_stopped mark_continued has_stopped_threads
stopped_after t thread i = (
  contains-add thread i t.stopped_thread_ids,
  some_stopped thread t.stopped_thread_ids,
  ground arith,
  ground (arith, contains-discard thread i t.stopped_thread_ids, nat_beq_iff thread i),
)

none_left : (xs : List ℕ) → ((i : ℕ) → contains i xs ≡ false) → is_empty xs ≡ true
unfolding contains
none_left [] h = refl
none_left (x ∷ xs) h = ground (arith, h x)

-- All threads have continued exactly when no thread is stopped.
pub all_continued_iff :
    (t : Tracker)
    → (all_threads_continued t ≡ not (has_stopped_threads t))
      × (((i : ℕ) → is_stopped t i ≡ false) → all_threads_continued t ≡ true)
unfolding all_threads_continued has_stopped_threads is_stopped
all_continued_iff t = (ground arith, none_left t.stopped_thread_ids)
