-- ===== src/Core/Debugger/AccessTypes.antt =====
-- The two readings of an "accessType": that of `DataBreakpointState`, which registers a watch, and
-- that of `DebuggerBDB`, which decides whether the watch stops.
use dapper.Base.{
  [], ◌∷◌, ◌≡◌, refl, Bool, true, ◌&&◌, ◌||◌, Option, none, some, arith, if◌then◌else◌, Bool-cases,
  inl, inr,
}
use dapper.Base.Text.{Codes, codes, strip, lower, same_text, same_text_iff}
use dapper.Core.DataBreakpoints.{normalize_access_type, writes, reads}
use dapper.Core.Debugger.Access.{access_mode, meta_matches_access_type}

-- The spellings that the debugger knows.
abbrev pub is_known : Codes → Bool
is_known mode =
    same_text mode (codes "read")
    || same_text mode (codes "write")
    || same_text mode (codes "readwrite")
    || same_text mode (codes "read_write")
    || same_text mode (codes "read-write")

-- For reads the debugger stops for exactly the metadata that registers a read watch. For writes it
-- does so only where the access type has a known spelling: metadata with any other one registers a
-- write watch, but the debugger never stops for it.
pub matches-normalize :
    (access_type : Option Codes)
    → (meta_matches_access_type access_type (codes "read")
        ≡ reads (normalize_access_type access_type))
      × (meta_matches_access_type access_type (codes "write")
          ≡ (writes (normalize_access_type access_type) && is_known (access_mode access_type)))
      × ((if is_known (access_mode access_type)
            then true
            else writes (normalize_access_type access_type))
          ≡ true)
unfolding meta_matches_access_type access_mode normalize_access_type
matches-normalize none = (refl, refl, refl)
matches-normalize (some []) = (refl, refl, refl)
matches-normalize (some (c ∷ s)) =
    elim (Bool-cases (same_text (lower (strip (c ∷ s))) (codes "read"))) [
      | inl y ↦
          rw
            (
              (same_text_iff (lower (strip (c ∷ s))) (codes "read")).0 y,
              meta_matches_access_type,
              access_mode,
            )
            (refl, refl, refl)
      | inr n ↦ (ground arith, ground arith, ground arith)
    ]
