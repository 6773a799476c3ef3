-- ===== src/Core/Stepping.antt =====
-- dapper/core/stepping_controller.py: `SteppingController`. A frame is known by a number.
use dapper.Base.{
  ℕ, String, ◌≡◌, Bool, true, false, Option, none, some, ◌==◌, string_eq, arith, if◌then◌else◌,
}

pub data StopReason : Type 0 where
  breakpoint step entry exception pause data_breakpoint function_breakpoint : StopReason

pub data StepGranularity : Type 0 where
  line statement instruction : StepGranularity

pub record Controller : Type 0 where
  pub stepping : Bool
  pub stop_on_entry : Bool
  pub current_frame : Option ℕ
  pub async_step_over : Bool
  pub granularity : StepGranularity

abbrev pub init : Controller
init = record {
  stepping = false;
  stop_on_entry = false;
  current_frame = none;
  async_step_over = false;
  granularity = line;
}

unfoldable pub is_stepping : Controller → Bool
is_stepping c = c.stepping

unfoldable pub set_stepping : Controller → Bool → Controller
set_stepping c value = record c { stepping = value }

unfoldable pub set_stop_on_entry : Controller → Bool → Controller
set_stop_on_entry c value = record c { stop_on_entry = value }

unfoldable pub set_current_frame : Controller → ℕ → Controller
set_current_frame c frame = record c { current_frame = some frame }

unfoldable pub get_stop_reason : Controller → StopReason
get_stop_reason c = if c.stop_on_entry then entry else if c.stepping then step else breakpoint

unfoldable pub consume_stop_state : Controller → StopReason × Controller
unfolding get_stop_reason
consume_stop_state c = (
  get_stop_reason c,
  if c.stop_on_entry
      then record c { stop_on_entry = false }
      else if c.stepping
      then record c { stepping = false }
      else c,
)

-- A member of the enumeration, or the text that a client sent.
pub data GranularityArgument : Type 0 where
  member : StepGranularity → GranularityArgument
  raw : String → GranularityArgument

unfoldable pub granularity_of : String → Option StepGranularity
granularity_of s =
    if s == "line"
    then some line
    else if s == "statement"
    then some statement
    else if s == "instruction"
    then some instruction
    else none

unfoldable pub set_granularity : Controller → GranularityArgument → Controller
unfolding granularity_of
set_granularity c (member g) = record c { granularity = g }
set_granularity c (raw s) = record c {
  granularity = elim (granularity_of s) [ none ↦ line | some g ↦ g ];
}

unfoldable pub set_async_step_over : Controller → Bool → Controller
set_async_step_over c value = record c { async_step_over = value }

unfoldable pub clear : Controller → Controller
clear c = init

unfoldable pub request_step : Controller → Controller
request_step c = record c { stepping = true }

-- A stop reports the entry before the step, takes back only the request that it reports, and
-- leaves the frame, the granularity and the asynchronous mode alone: what a second stop reports is
-- the step that the first left pending, and a third reports a breakpoint.
pub consume_twice :
    (c : Controller)
    → ((consume_stop_state c).0
        ≡ (if c.stop_on_entry then entry else if c.stepping then step else breakpoint))
      × ((consume_stop_state (consume_stop_state c).1).0
          ≡ (if c.stop_on_entry then (if c.stepping then step else breakpoint) else breakpoint))
      × ((consume_stop_state (consume_stop_state (consume_stop_state c).1).1).0 ≡ breakpoint)
      × ((consume_stop_state (consume_stop_state c).1).1
          ≡ record c { stepping = false; stop_on_entry = false })
unfolding consume_stop_state
consume_twice c = (ground arith, ground arith, ground arith, ground arith)
