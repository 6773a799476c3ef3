-- ===== src/Core/Debugger/Access.antt =====
-- How `DebuggerBDB` reads the "accessType" of a data breakpoint, where it is a text or missing.
use dapper.Base.{Bool, true, ◌||◌, Option, none, some, is_empty, if◌then◌else◌}
use dapper.Base.Text.{Codes, codes, strip, lower, same_text}

-- `_meta_matches_access_type`: the mode of the metadata, a text, or `none` where it is missing.
unfoldable pub access_mode : Option Codes → Codes
unfolding lower strip
access_mode none = codes "write"
access_mode (some s) = lower (strip (if is_empty s then codes "write" else s))

unfoldable pub meta_matches_access_type : Option Codes → Codes → Bool
unfolding access_mode same_text
meta_matches_access_type access_type wanted =
    let mode = access_mode access_type in
    if same_text mode (codes "readwrite")
      || same_text mode (codes "read_write")
      || same_text mode (codes "read-write")
    then true
    else if same_text wanted (codes "read")
    then same_text mode (codes "read")
    else same_text mode (codes "write")
