-- ===== src/FrameEval/Tracer/Clearing.antt =====
-- What clearing breakpoints does in dapper/_frame_eval/selective_tracer.py: for one file, and for
-- all files.
use dapper.Base.{
  ℕ, String, string_eq, true, false, ◌≡◌, Option, none, some, List, [], refl, ap, ◌∙◌, arith, ◌==◌,
  inl, inr, Bool-cases,
}
use dapper.Base.Dict.{get, has, get-remove_same, get-put_same, get_or}
use dapper.FrameEval.BreakpointCache.{Cache, remove_entry}
use dapper.FrameEval.BreakpointCache.{set_breakpoints as cache_set, get_breakpoints as cache_get}
use dapper.FrameEval.Tracer.{Host, Analyzer}
use dapper.FrameEval.Tracer.Analysis.{look_up}
use dapper.FrameEval.Tracer.Updates.{update_breakpoints}
use dapper.FrameEval.Tracer.Dispatcher.{dispatch_update}
use dapper.FrameEval.Tracer.Manager.{
  Manager, clear_breakpoints, clear_all_breakpoints, update_file_breakpoints, update_each,
  get_breakpoints,
}

cache_set-empty :
    (mtime : String → Option ℕ) (c : Cache) (now : ℕ) (file : String)
    → get file (cache_set mtime true c now file []).entries ≡ none
unfolding cache_set remove_entry has
cache_set-empty mtime c now file = elim (Bool-cases (has file c.entries)) [
  | inl h ↦ rw h (get-remove_same file c.entries)
  | inr h ↦ rw h (ground arith)
]

cache_get-none :
    (mtime : String → Option ℕ) (c : Cache) (file : String)
    → get file c.entries ≡ none
    → cache_get mtime c file ≡ (none, c)
unfolding cache_get
cache_get-none mtime c file h = simp (h, cache_get) refl

module _ (host : Host) where
  look_up-none :
      (a : Analyzer host.py.Code) (file : String)
      → get file a.cache.entries ≡ none
      → (look_up host a file).0 ≡ []
  unfolding look_up
  look_up-none a file h =
      ap {B = List ℕ} (λ found. elim found.0 [ none ↦ [] | some lines ↦ lines ])
        (cache_get-none host.mtime a.cache file h)

  update_breakpoints-empty :
      (a : Analyzer host.py.Code) (now : ℕ) (file : String)
      → a.cache_enabled ≡ true
      → get file (update_breakpoints host a now file []).cache.entries ≡ none
  unfolding update_breakpoints
  update_breakpoints-empty a now file on =
      ap {B = Option (List ℕ)} (λ e. get file (cache_set host.mtime e a.cache now file []).entries)
        on
      ∙ cache_set-empty host.mtime a.cache now file

  emptied :
      (m : Manager host.py.Code) (now : ℕ) (file : String)
      → get_breakpoints (update_file_breakpoints host m now file []) file ≡ []
  unfolding get_breakpoints update_file_breakpoints get_or
  emptied m now file = rw (get-put_same file [] m.global_breakpoints, get_or) refl

  -- Clearing one file, while the caches are on, leaves the manager and the analyzer without a
  -- line of that file. Clearing all files empties the manager's table but leaves the dispatcher
  -- and its analyzer as they are, so that the lines of every file go on to be traced.
  pub clear_breakpoints_lem :
      (m : Manager host.py.Code) (now : ℕ) (file : String)
      → (file == "") ≡ false
      → m.dispatcher.analyzer.cache_enabled ≡ true
      → (get_breakpoints (clear_breakpoints host m now (some file)) file ≡ [])
        × ((look_up host (clear_breakpoints host m now (some file)).dispatcher.analyzer file).0
            ≡ [])
        × ((clear_breakpoints host m now none).global_breakpoints ≡ [])
        × ((clear_breakpoints host m now none).dispatcher ≡ m.dispatcher)
  unfolding clear_breakpoints clear_all_breakpoints update_each update_file_breakpoints
      dispatch_update
  clear_breakpoints_lem m now file named on = (
    rw named (emptied m now file),
    rw named (
        look_up-none (update_breakpoints host m.dispatcher.analyzer now file []) file
          (update_breakpoints-empty m.dispatcher.analyzer now file on)),
    refl,
    refl,
  )
