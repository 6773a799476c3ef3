-- ===== src/Tests/Handlers.antt =====
-- The theorems on dapper/_frame_eval/bytecode_safety.py and dapper/adapter/source_tracker.py at
-- small inputs.
use dapper.Base.{ℕ, ◌≤◌, true, false, Option, none, some, List, [], ◌∷◌, ◌≡◌}
use dapper.Base.Text.{Codes, codes}
use dapper.FrameEval.Telemetry.{init}
use dapper.FrameEval.BytecodeSafety.{CodeObject, SafetyConfig, safe_replace_code}
use dapper.FrameEval.BytecodeSafety.Validation.{IsSafe, safe_replace_code-IsSafe}
use dapper.Adapter.Sources as Sources
use dapper.Adapter.Sources.{Files, Module, get_loaded_sources}
use dapper.Adapter.Sources.Loaded.{times, get_loaded_sources-once}

abbrev opcodes : List ℕ
opcodes = 9 ∷ 83 ∷ []

abbrev reads : CodeObject → Option Codes
reads code = none

abbrev original : CodeObject
original = record {
  co_code = 83 ∷ 0 ∷ [];
  co_stacksize = some 2;
  co_filename = codes "/app/main.py";
  co_name = codes "work";
}

abbrev injected : CodeObject
injected = record original { co_code = 9 ∷ 0 ∷ 83 ∷ 0 ∷ []; co_stacksize = some 5 }

abbrev defaults : SafetyConfig
defaults = record {
  validate_decodable = none;
  validate_stacksize = none;
  max_stacksize_delta = none;
}

safe_replace_code-IsSafe_example :
    ((safe_replace_code opcodes reads init 9 original injected defaults).0.0 ≡ true
      → IsSafe opcodes reads defaults original injected)
    × (IsSafe opcodes reads defaults original injected
        → (safe_replace_code opcodes reads init 9 original injected defaults).0 ≡ (true, injected))
    × ((safe_replace_code opcodes reads init 9 original injected defaults).0.0 ≡ false
        → (safe_replace_code opcodes reads init 9 original injected defaults).0.1 ≡ original)
safe_replace_code-IsSafe_example =
    safe_replace_code-IsSafe opcodes reads init 9 original injected defaults

-- One module whose file is in linecache too, and is the program.
abbrev files : Files
files = record {
  resolve = λ file. some file;
  path_name = λ path. codes "main.py";
  exists = λ path. true;
  modules =
      (
        codes "main",
        some (record {
          file = some (codes "/app/main.py");
          package_name = none;
          module_id = codes "1";
        }),
      )
      ∷ [];
  linecache = codes "/app/main.py" ∷ [];
  prefix = codes "/usr";
  base_prefix = codes "/usr";
}

get_loaded_sources-once_example :
    times
      (codes "/app/main.py")
      (get_loaded_sources files (Sources.init (some (codes "/app/main.py"))) 400).0
    ≤ 1
get_loaded_sources-once_example =
    get_loaded_sources-once files (Sources.init (some (codes "/app/main.py"))) 400
      (codes "/app/main.py")
