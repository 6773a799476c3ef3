-- ===== src/Tests/Sources.antt =====
-- Sources that are texts in memory, and a cache of two entries.
use dapper.Base.{
  ℕ, ◌+◌, ◌≤◌, ◌≡◌, refl, true, Option, none, some, List, [], ◌∷◌, nat_eq, arith, length, ltb,
  if◌then◌else◌,
}
use dapper.Base.Text.{Codes, codes, strip, codes_eq, same_text}
use dapper.Shared.Registry as Dynamic
use dapper.Shared.Registry.Linked.{init-IsLinked}
use dapper.Shared.Registry.Laws.{Registered, register-IsLinked}
use dapper.Shared.Catalog.{
  Catalog, ParsedUri, init, get_or_create_source_ref, get_source_meta,
  get_or_register_dynamic_from_linecache, get_source_content_by_ref,
}
use dapper.Shared.Catalog.Collision.{content-collision}
use dapper.FrameEval.CodeCache as Code
use dapper.FrameEval.CodeCache.{Cache, cache_get, cache_set}
use dapper.FrameEval.CodeCache.Eviction.{get-set}

abbrev path : Codes
path = codes "<string>"

abbrev text : Codes
text = codes "x = 1"

register-IsLinked_example :
    (a : ℕ) × (r' : Dynamic.Registry) × (Dynamic.register Dynamic.init path text none
        (codes "eval")
        (some 4)
      ≡ some (a, r'))
    × Registered Dynamic.init path text path a r'
register-IsLinked_example =
    register-IsLinked Dynamic.init init-IsLinked path text none (codes "eval") (some 4) path

abbrev other : Codes
other = codes "<frozen>"

abbrev lines : Codes → List Codes
lines p = text ∷ []

abbrev urlparse : Codes → ParsedUri
urlparse p = record { scheme = []; netloc = []; path = p }

abbrev same_path : Codes → Codes
same_path p = p

abbrev unread : Codes → Option Codes
unread p = none

content-collision_example :
    (c : Catalog) × ((get_or_create_source_ref init path none).0 ≡ 1)
    × (get_or_register_dynamic_from_linecache lines
          (get_or_create_source_ref init path none).1
          other
        ≡ some (2, c))
    × (get_source_meta c 1 ≡ some (record { path = path; name = none }))
    × (get_source_content_by_ref urlparse same_path unread c 1
        ≡ some (Dynamic.join (lines (strip other))))
unfolding same_text
content-collision_example = content-collision lines path other refl refl urlparse same_path unread

-- A cache that is full.
abbrev full : Cache ℕ
unfolding cache_set
full =
    cache_set true
      (cache_set true
        (Code.init 2 300
          (record { hits = 0; misses = 0; evictions = 0; total_entries = 0; memory_usage = 0 }))
        0 11 1)
      5 12 2

get-set_example :
    (length (cache_set true full 20 13 3).lru_order ≤ 2)
    × ((cache_get true (cache_set true full 20 13 3) 100 13).0
        ≡ (if ltb 100 (20 + 300) then some 3 else none))
unfolding full
get-set_example = get-set full 20 100 13 3 (omega arith)
