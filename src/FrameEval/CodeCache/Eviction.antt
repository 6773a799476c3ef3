-- ===== src/FrameEval/CodeCache/Eviction.antt =====
-- What stays in the cache when it is full.
use dapper.Base.{
  ℕ, ◌+◌, ◌≤◌, ◌<◌, ◌≡◌, refl, ap, ◌∙◌, true, false, none, some, List, [], ◌∷◌, ◌++◌, ◌==◌, nat_eq,
  nat_beq_iff, arith, ltb, length, contains, contains-discard, discard, if◌then◌else◌, Bool-cases,
  Option-cases, inl, inr,
}
use dapper.Base.Dict.{Dict, get, remove, has, get-put, get-remove, has-put}
use dapper.FrameEval.CodeCache.{
  Stored, Cache, move_to_end, get_from_weak_map, count_request, cache_get, insert_into_lru, evict,
  evict_if_needed, with_totals, cache_set, cache_clear,
}

contains-end : (k : ℕ) (order : List ℕ) → contains k (order ++ k ∷ []) ≡ true
unfolding contains
contains-end k [] = ground arith
contains-end k (o ∷ order) = ground (arith, contains-end k order)

module _ {A : Type 0} (max_size : ℕ) where
  -- The loop ends with no more entries than the limit.
  evict-bounded :
      (order : List ℕ) (weak_map : Dict ℕ (Stored A)) (n : ℕ)
      → length (evict max_size weak_map order n).1 ≤ max_size
  unfolding evict
  evict-bounded [] weak_map n = omega arith
  evict-bounded (o ∷ order) weak_map n = elim (Bool-cases (ltb max_size (length (o ∷ order)))) [
    | inl y ↦ rw (y, evict) (evict-bounded order (remove o weak_map) (n + 1))
    | inr m ↦ rw (m, evict) (ground (arith, m))
  ]

  -- The entry at the end of the order is kept, where there is room for one.
  evict-last :
      (order : List ℕ) (weak_map : Dict ℕ (Stored A)) (n k : ℕ)
      → 0 < max_size
      → contains k order ≡ false
      → (get k (evict max_size weak_map (order ++ k ∷ []) n).0 ≡ get k weak_map)
        × (contains k (evict max_size weak_map (order ++ k ∷ []) n).1 ≡ true)
  unfolding evict contains
  evict-last [] weak_map n k room free = elim (Bool-cases (ltb max_size 1)) [
    | inl y ↦ absurd (ground (arith, y))
    | inr m ↦ rw (m, evict) (refl, ground arith)
  ]
  evict-last (o ∷ order) weak_map n k room free =
      elim (Bool-cases (ltb max_size (length (o ∷ order ++ k ∷ [])))) [
        | inl y ↦
            let (same, kept) = evict-last order (remove o weak_map) (n + 1) k room (ground arith) in
            rw (y, evict) (same ∙ ground (arith, get-remove o k weak_map, nat_beq_iff o k), kept)
        | inr m ↦ rw (m, evict) (refl, ground (arith, contains-end k order))
      ]

module _ {A : Type 0} (c : Cache A) (now k : ℕ) (info : A) where
  -- The cache when the entry stands at the end of the order, before any eviction.
  abbrev inserted : Cache A
  inserted = insert_into_lru c k info now

  set_map :
      (cache_set true c now k info).weak_map
      ≡ (evict c.max_size inserted.weak_map inserted.lru_order c.stats.evictions).0
  unfolding cache_set evict_if_needed with_totals insert_into_lru
  set_map = refl

  set_order :
      (cache_set true c now k info).lru_order
      ≡ (evict c.max_size inserted.weak_map inserted.lru_order c.stats.evictions).1
  unfolding cache_set evict_if_needed with_totals insert_into_lru
  set_order = refl

  set_limits :
      ((cache_set true c now k info).max_size ≡ c.max_size)
      × ((cache_set true c now k info).ttl ≡ c.ttl)
  unfolding cache_set evict_if_needed with_totals insert_into_lru
  set_limits = (refl, refl)

  set_stored :
      0 < c.max_size
      → get k (cache_set true c now k info).weak_map
        ≡ some (record { info = info; timestamp = now })
  unfolding insert_into_lru move_to_end
  set_stored room =
      ap (get k) set_map
      ∙ (evict-last c.max_size (discard k c.lru_order) inserted.weak_map c.stats.evictions k room
          (ground (arith, contains-discard k k c.lru_order, nat_beq_iff k k))).0
      ∙ ground
          (arith, get-put k (record { info = info; timestamp = now }) k c.weak_map, nat_beq_iff k k)

get_fresh :
    {A : Type 0} (c : Cache A) (now k : ℕ) (stored : Stored A)
    → get k c.weak_map ≡ some stored
    → ltb now (stored.timestamp + c.ttl) ≡ true
    → (cache_get true c now k).0 ≡ some stored.info
unfolding cache_get get_from_weak_map count_request
get_fresh c now k stored h fresh = rw (h, fresh, cache_get, get_from_weak_map) refl

get_expired :
    {A : Type 0} (c : Cache A) (now k : ℕ) (stored : Stored A)
    → get k c.weak_map ≡ some stored
    → ltb now (stored.timestamp + c.ttl) ≡ false
    → (cache_get true c now k).0 ≡ none
unfolding cache_get get_from_weak_map count_request
get_expired c now k stored h old = rw (h, old, cache_get, get_from_weak_map) refl

-- However full the cache is, it never holds more entries in its order than its limit after an entry
-- is set. With room for one entry, the new one is never the one evicted: until its time is over it
-- is found again, and from then on it is not.
pub get-set :
    {A : Type 0} (c : Cache A) (now later k : ℕ) (info : A)
    → 0 < c.max_size
    → (length (cache_set true c now k info).lru_order ≤ c.max_size)
      × ((cache_get true (cache_set true c now k info) later k).0
          ≡ (if ltb later (now + c.ttl) then some info else none))
get-set {A} c now later k info room =
    let set = cache_set true c now k info in
    let stored : Stored A = record { info = info; timestamp = now } in
    let bounded =
      evict-bounded c.max_size (inserted c now k info).lru_order (inserted c now k info).weak_map
        c.stats.evictions in
    (
      rw (set_order c now k info) bounded,
      elim (Bool-cases (ltb later (now + c.ttl))) [
        | inl y ↦ rw y (
            get_fresh set later k stored (set_stored c now k info room)
              (ap (λ t. ltb later (now + t)) (set_limits c now k info).1 ∙ y))
        | inr n ↦ rw n (
            get_expired set later k stored (set_stored c now k info room)
              (ap (λ t. ltb later (now + t)) (set_limits c now k info).1 ∙ n))
      ],
    )

get_timestamps :
    {A : Type 0} (c : Cache A) (now k : ℕ) → (cache_get true c now k).1.timestamps ≡ c.timestamps
unfolding cache_get get_from_weak_map count_request
get_timestamps c now k = elim (Option-cases (get k c.weak_map)) [
  | inl e ↦ rw (e, cache_get, get_from_weak_map) refl
  | inr (stored, e) ↦ elim (Bool-cases (ltb now (stored.timestamp + c.ttl))) [
    | inl y ↦ rw (e, y, cache_get, get_from_weak_map) refl
    | inr n ↦ rw (e, n, cache_get, get_from_weak_map) refl
  ]
]

-- A code object that has a timestamp keeps it, and so stays referenced by the cache, when another
-- is set and it is evicted, when any is looked up, its own time being over or not, and when the
-- cache is cleared.
timestamps_kept :
    {A : Type 0} (c : Cache A) (now k j : ℕ) (info : A)
    → (has j (cache_set true c now k info).timestamps
        ≡ (if k == j then true else has j c.timestamps))
      × (has j (cache_get true c now k).1.timestamps ≡ has j c.timestamps)
      × (has j (cache_clear c).timestamps ≡ has j c.timestamps)
unfolding cache_set evict_if_needed with_totals insert_into_lru cache_clear
timestamps_kept c now k j info =
    (has-put k now j c.timestamps, ap (has j) (get_timestamps c now k), refl)
