-- ===== src/FrameEval/CodeCache.antt =====
-- dapper/_frame_eval/cache_manager.py: `FuncCodeInfoCache` and the counters of `CacheManager` that
-- it keeps. A code object and the weak reference to it are one number: `_timestamps` holds the
-- object itself, so that it is not collected while it is there. Times are whole numbers.
pub mod Eviction
use dapper.Base.{
  ℕ, ◌+◌, ◌*◌, Bool, true, false, Option, none, some, List, [], ◌∷◌, ◌++◌, nat_eq, ltb, leb, length,
  contains, discard, if◌then◌else◌,
}
use dapper.Base.Dict.{Dict, get, put, remove, has}

pub record Stats : Type 0 where
  pub hits : ℕ
  pub misses : ℕ
  pub evictions : ℕ
  pub total_entries : ℕ
  pub memory_usage : ℕ

pub record Stored (A : Type 0) : Type 0 where
  pub info : A
  pub timestamp : ℕ

-- `lru_order` has the oldest entry first.
pub record Cache (A : Type 0) : Type 0 where
  pub max_size : ℕ
  pub ttl : ℕ
  pub weak_map : Dict ℕ (Stored A)
  pub lru_order : List ℕ
  pub timestamps : Dict ℕ ℕ
  pub stats : Stats

-- `move_to_end`
unfoldable pub move_to_end : ℕ → List ℕ → List ℕ
unfolding discard
move_to_end k order = discard k order ++ k ∷ []

unfoldable pub expired_keys : ℕ → ℕ → Dict ℕ ℕ → List ℕ
expired_keys ttl now [] = []
expired_keys ttl now ((k, timestamp) ∷ timestamps) =
    let rest = expired_keys ttl now timestamps in
    if ltb (timestamp + ttl) now then k ∷ rest else rest

unfoldable pub remove_all {ℓ} : {V : Type ℓ} → List ℕ → Dict ℕ V → Dict ℕ V
unfolding remove
remove_all [] d = d
remove_all (k ∷ ks) d = remove_all ks (remove k d)

module _ {A : Type 0} where
  abbrev pub init : ℕ → ℕ → Stats → Cache A
  init max_size ttl stats = record {
    max_size = max_size;
    ttl = ttl;
    weak_map = [];
    lru_order = [];
    timestamps = [];
    stats = stats;
  }

  unfoldable pub estimate_memory_usage : Dict ℕ (Stored A) → ℕ
  estimate_memory_usage weak_map = length weak_map * 200

  -- An entry whose time is over leaves the map and the order, but not the timestamps.
  unfoldable pub get_from_weak_map : Cache A → ℕ → ℕ → Option A × Cache A
  unfolding get contains move_to_end discard remove
  get_from_weak_map c now k = elim (get k c.weak_map) [
    | none ↦ (none, c)
    | some stored ↦
        if ltb now (stored.timestamp + c.ttl)
        then (
          some stored.info,
          record c {
            lru_order = if contains k c.lru_order then move_to_end k c.lru_order else c.lru_order;
          },
        )
        else (
          none,
          record c {
            lru_order = discard k c.lru_order;
            weak_map = remove k c.weak_map;
            stats = record (c.stats) { evictions = c.stats.evictions + 1 };
          },
        )
  ]

  unfoldable pub count_request : Option A × Cache A → Option A × Cache A
  count_request (some info, c) =
      (some info, record c { stats = record (c.stats) { hits = c.stats.hits + 1 } })
  count_request (none, c) =
      (none, record c { stats = record (c.stats) { misses = c.stats.misses + 1 } })

  -- `enabled` is the flag of `CacheManager`, and `now` the time.
  unfoldable pub cache_get : Bool → Cache A → ℕ → ℕ → Option A × Cache A
  unfolding get_from_weak_map count_request
  cache_get enabled c now k =
      if enabled then count_request (get_from_weak_map c now k) else (none, c)

  unfoldable pub insert_into_lru : Cache A → ℕ → A → ℕ → Cache A
  unfolding put move_to_end
  insert_into_lru c k info now = record c {
    weak_map = put k (record { info = info; timestamp = now }) c.weak_map;
    timestamps = put k now c.timestamps;
    lru_order = move_to_end k c.lru_order;
  }

  -- The loop of `_evict_if_needed`: what is left of the map and the order, and the evictions.
  unfoldable pub evict : ℕ → Dict ℕ (Stored A) → List ℕ → ℕ → Dict ℕ (Stored A) × List ℕ × ℕ
  unfolding remove
  evict max_size weak_map [] evictions = (weak_map, [], evictions)
  evict max_size weak_map (oldest ∷ order) evictions =
      elim (ltb max_size (length (oldest ∷ order))) [
        | true ↦ evict max_size (remove oldest weak_map) order (evictions + 1)
        | false ↦ (weak_map, oldest ∷ order, evictions)
      ]

  unfoldable pub evict_if_needed : Cache A → Cache A
  unfolding evict
  evict_if_needed c =
      let (weak_map, order, evictions) =
        evict c.max_size c.weak_map c.lru_order c.stats.evictions in
      record c {
        weak_map = weak_map;
        lru_order = order;
        stats = record (c.stats) { evictions = evictions };
      }

  unfoldable pub with_totals : ℕ → Cache A → Cache A
  unfolding estimate_memory_usage
  with_totals entries c = record c {
    stats = record (c.stats) {
      total_entries = entries;
      memory_usage = estimate_memory_usage c.weak_map;
    };
  }

  unfoldable pub cache_set : Bool → Cache A → ℕ → ℕ → A → Cache A
  unfolding insert_into_lru evict_if_needed with_totals
  cache_set enabled c now k info =
      if enabled
      then (let c' = evict_if_needed (insert_into_lru c k info now) in
          with_totals (length c'.lru_order) c')
      else c

  unfoldable pub cache_remove : Cache A → ℕ → Bool × Cache A
  unfolding has remove discard with_totals
  cache_remove c k = elim (has k c.weak_map) [
    | true ↦ (
      true,
      with_totals (length (remove k c.weak_map)) (record c {
        weak_map = remove k c.weak_map;
        lru_order = discard k c.lru_order;
        timestamps = remove k c.timestamps;
      }),
    )
    | false ↦ (false, with_totals (length c.weak_map) c)
  ]

  unfoldable pub cache_clear : Cache A → Cache A
  unfolding with_totals
  cache_clear c = with_totals 0 (record c { weak_map = []; lru_order = [] })

  -- The order keeps what is removed here.
  unfoldable pub cleanup_expired : Cache A → ℕ → ℕ × Cache A
  unfolding expired_keys remove_all with_totals
  cleanup_expired c now =
      let expired = expired_keys c.ttl now c.timestamps in
      let weak_map = remove_all expired c.weak_map in
      (
        length expired,
        with_totals (length weak_map) (record c {
          weak_map = weak_map;
          timestamps = remove_all expired c.timestamps;
          stats = record (c.stats) { evictions = c.stats.evictions + length expired };
        }),
      )
