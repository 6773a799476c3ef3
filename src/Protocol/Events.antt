-- ===== src/Protocol/Events.antt =====
-- The constructors of single events: `create_initialized_event` to `create_breakpoint_event` of
-- dapper/protocol/protocol.py.
use dapper.Base.{
  String, string_eq, Bool, true, false, Option, none, some, [], ◌∷◌, if◌then◌else◌, ℕ,
}
use dapper.Protocol.{
  ℤ, bool, int, str, Message, num, object, put_some, text_value, Factory, Made, create_event,
}

unfoldable pub create_initialized_event : Factory → Made
unfolding create_event
create_initialized_event f = create_event f "initialized" none

unfoldable pub create_stopped_event : Factory → String → ℕ → Option String → Made
unfolding create_event put_some
create_stopped_event f reason thread_id text = create_event f "stopped" (
    some (
      put_some "text" (text_value text) (
        ("reason", str reason)
        ∷ ("threadId", num thread_id)
        ∷ ("allThreadsStopped", bool false)
        ∷ [])))

unfoldable pub create_exited_event : Factory → ℤ → Made
unfolding create_event
create_exited_event f exit_code = create_event f "exited" (some (("exitCode", int exit_code) ∷ []))

-- `body or None`: an empty body is left out.
unfoldable pub create_terminated_event : Factory → Bool → Made
unfolding create_event
create_terminated_event f restart =
    create_event f "terminated" (if restart then some (("restart", bool true) ∷ []) else none)

unfoldable pub create_thread_event : Factory → String → ℕ → Made
unfolding create_event
create_thread_event f reason thread_id =
    create_event f "thread" (some (("reason", str reason) ∷ ("threadId", num thread_id) ∷ []))

unfoldable pub create_output_event : Factory → String → String → Made
unfolding create_event
create_output_event f output category =
    create_event f "output" (some (("output", str output) ∷ ("category", str category) ∷ []))

unfoldable pub create_breakpoint_event : Factory → String → Message → Made
unfolding create_event
create_breakpoint_event f reason breakpoint_info =
    create_event f "breakpoint"
      (some (("reason", str reason) ∷ ("breakpoint", object breakpoint_info) ∷ []))
