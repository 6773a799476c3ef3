-- ===== src/FrameEval/CodeFiles.antt =====
-- dapper/_frame_eval/cache_manager.py: the modified code that `CacheManager` keeps, by code object
-- and by file, and the lines with breakpoints. Code objects are known by numbers.
use dapper.Base.{
  ℕ, String, ◌≡◌, Bool, Option, none, List, [], ◌∷◌, ◌==◌, nat_eq, nat_beq_iff, string_eq, arith,
  contains, if◌then◌else◌,
}
use dapper.Base.Dict.{Dict, get, put, remove, has, get-remove}

pub record Files : Type 0 where
  pub func_code_cache : Dict ℕ ℕ
  pub func_code_paths : Dict ℕ String
  pub breakpoint_cache : Dict String (List ℕ)

-- `co_filename` is empty where the code object has none.
unfoldable pub set_cached_code : (ℕ → String) → Files → ℕ → ℕ → Files
unfolding put
set_cached_code co_filename c original modified = record c {
  func_code_cache = put original modified c.func_code_cache;
  func_code_paths = put original (co_filename original) c.func_code_paths;
}

unfoldable pub get_cached_code : Files → ℕ → Option ℕ
unfolding get
get_cached_code c original = get original c.func_code_cache

unfoldable pub without_code : Files → ℕ → Files
unfolding remove
without_code c original = record c {
  func_code_cache = remove original c.func_code_cache;
  func_code_paths = remove original c.func_code_paths;
}

unfoldable pub remove_cached_code : Files → ℕ → Bool × Files
unfolding has without_code
remove_cached_code c original = (has original c.func_code_cache, without_code c original)

-- The code objects of a file.
unfoldable pub codes_of : String → Dict ℕ String → List ℕ
codes_of file [] = []
codes_of file ((code, path) ∷ paths) =
    let rest = codes_of file paths in if path == file then code ∷ rest else rest

unfoldable pub without_codes : Files → List ℕ → Files
unfolding without_code
without_codes c [] = c
without_codes c (code ∷ codes) = without_codes (without_code c code) codes

unfoldable pub invalidate_cached_code_for_file : Files → String → List ℕ × Files
unfolding codes_of without_codes
invalidate_cached_code_for_file c file =
    let removed = codes_of file c.func_code_paths in (removed, without_codes c removed)

unfoldable pub get_cached_breakpoints : Files → String → Option (List ℕ)
unfolding get
get_cached_breakpoints c file = get file c.breakpoint_cache

unfoldable pub set_cached_breakpoints : Files → String → List ℕ → Files
unfolding put
set_cached_breakpoints c file lines = record c {
  breakpoint_cache = put file lines c.breakpoint_cache;
}

unfoldable pub clear_caches : Files → Files
clear_caches c = record { func_code_cache = []; func_code_paths = []; breakpoint_cache = [] }

get-without_codes :
    (k : ℕ) (removed : List ℕ) (c : Files)
    → get_cached_code (without_codes c removed) k
      ≡ (if contains k removed then none else get_cached_code c k)
unfolding get_cached_code without_codes contains
get-without_codes k [] c = ground arith
get-without_codes k (code ∷ removed) c = ground (
  arith,
  get-without_codes k removed (without_code c code),
  get-remove code k c.func_code_cache,
  nat_beq_iff code k,
)

-- Invalidating a file gives the code objects of the file, of which no modified code is found any
-- more, and leaves the modified code of all others.
get-invalidate :
    (c : Files) (file : String) (k : ℕ)
    → get_cached_code (invalidate_cached_code_for_file c file).1 k ≡ (
        if contains k (invalidate_cached_code_for_file c file).0 then none else get_cached_code c k)
unfolding invalidate_cached_code_for_file
get-invalidate c file k = get-without_codes k (codes_of file c.func_code_paths) c
