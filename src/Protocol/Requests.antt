-- ===== src/Protocol/Requests.antt =====
-- The constructors of single requests: `create_initialize_request` to `create_evaluate_request`
-- of dapper/protocol/protocol.py, with the request specifications they use.
use dapper.Base.{String, string_eq, Bool, true, false, Option, none, some, [], ◌∷◌, ℕ}
use dapper.Core.Stepping.{StepGranularity, line, statement, instruction}
use dapper.Protocol.{
  Json, Elements, bool, str, arr, num, put_some, RequestSpec, spec, Factory, Made, create_request,
}

abbrev pub initialize_spec : RequestSpec
initialize_spec = record {
  command = "initialize";
  args_type = "InitializeRequestArguments";
  return_type = "InitializeRequest";
}

abbrev pub launch_spec : RequestSpec
launch_spec = record {
  command = "launch";
  args_type = "LaunchRequestArguments";
  return_type = "LaunchRequest";
}

abbrev pub config_done_spec : RequestSpec
config_done_spec = record {
  command = "configurationDone";
  args_type = "ConfigurationDoneArguments";
  return_type = "ConfigurationDoneRequest";
}

abbrev pub set_breakpoints_spec : RequestSpec
set_breakpoints_spec = record {
  command = "setBreakpoints";
  args_type = "SetBreakpointsArguments";
  return_type = "SetBreakpointsRequest";
}

abbrev pub continue_spec : RequestSpec
continue_spec = record {
  command = "continue";
  args_type = "ContinueArguments";
  return_type = "ContinueRequest";
}

abbrev pub next_spec : RequestSpec
next_spec = record { command = "next"; args_type = "NextArguments"; return_type = "NextRequest" }

abbrev pub step_in_spec : RequestSpec
step_in_spec = record {
  command = "stepIn";
  args_type = "StepInArguments";
  return_type = "StepInRequest";
}

abbrev pub step_out_spec : RequestSpec
step_out_spec = record {
  command = "stepOut";
  args_type = "StepOutArguments";
  return_type = "StepOutRequest";
}

abbrev pub threads_spec : RequestSpec
threads_spec = record { command = "threads"; args_type = "dict"; return_type = "ThreadsRequest" }

abbrev pub stack_trace_spec : RequestSpec
stack_trace_spec = record {
  command = "stackTrace";
  args_type = "StackTraceArguments";
  return_type = "StackTraceRequest";
}

abbrev pub scopes_spec : RequestSpec
scopes_spec = record {
  command = "scopes";
  args_type = "ScopesArguments";
  return_type = "ScopesRequest";
}

abbrev pub variables_spec : RequestSpec
variables_spec = record {
  command = "variables";
  args_type = "VariablesArguments";
  return_type = "VariablesRequest";
}

abbrev pub evaluate_spec : RequestSpec
evaluate_spec = record {
  command = "evaluate";
  args_type = "EvaluateArguments";
  return_type = "EvaluateRequest";
}

unfoldable pub create_initialize_request : Factory → String → String → Made
unfolding create_request
create_initialize_request f client_id adapter_id = create_request f (spec initialize_spec) (
    some (
      ("clientID", str client_id)
      ∷ ("adapterID", str adapter_id)
      ∷ ("linesStartAt1", bool true)
      ∷ ("columnsStartAt1", bool true)
      ∷ ("supportsVariableType", bool true)
      ∷ ("supportsVariablePaging", bool true)
      ∷ ("supportsRunInTerminalRequest", bool false)
      ∷ []))

abbrev list_value : Option Elements → Option Json
list_value none = none
list_value (some xs) = some (arr xs)

unfoldable pub create_launch_request : Factory → String → Option Elements → Bool → Made
unfolding create_request put_some
create_launch_request f program args no_debug = create_request f (spec launch_spec) (
    some (
      put_some "args" (list_value args)
        (("program", str program) ∷ ("noDebug", bool no_debug) ∷ [])))

unfoldable pub create_configuration_done_request : Factory → Made
unfolding create_request
create_configuration_done_request f = create_request f (spec config_done_spec) none

unfoldable pub create_set_breakpoints_request : Factory → Json → Elements → Made
unfolding create_request
create_set_breakpoints_request f source breakpoints =
    create_request f (spec set_breakpoints_spec)
      (some (("source", source) ∷ ("breakpoints", arr breakpoints) ∷ []))

unfoldable pub create_continue_request : Factory → ℕ → Made
unfolding create_request
create_continue_request f thread_id =
    create_request f (spec continue_spec) (some (("threadId", num thread_id) ∷ []))

-- The granularity is left out when it is the default one.
unfoldable pub granularity_value : StepGranularity → Option Json
granularity_value line = none
granularity_value statement = some (str "statement")
granularity_value instruction = some (str "instruction")

unfoldable pub create_next_request : Factory → ℕ → StepGranularity → Made
unfolding create_request put_some granularity_value
create_next_request f thread_id granularity = create_request f (spec next_spec) (
    some
      (put_some "granularity" (granularity_value granularity) (("threadId", num thread_id) ∷ [])))

abbrev number_value : Option ℕ → Option Json
number_value none = none
number_value (some n) = some (num n)

unfoldable pub create_step_in_request : Factory → ℕ → Option ℕ → StepGranularity → Made
unfolding create_request put_some granularity_value
create_step_in_request f thread_id target_id granularity = create_request f (spec step_in_spec) (
    some (
      put_some "granularity" (granularity_value granularity)
        (put_some "targetId" (number_value target_id) (("threadId", num thread_id) ∷ []))))

unfoldable pub create_step_out_request : Factory → ℕ → StepGranularity → Made
unfolding create_request put_some granularity_value
create_step_out_request f thread_id granularity = create_request f (spec step_out_spec) (
    some
      (put_some "granularity" (granularity_value granularity) (("threadId", num thread_id) ∷ [])))

unfoldable pub create_threads_request : Factory → Made
unfolding create_request
create_threads_request f = create_request f (spec threads_spec) none

unfoldable pub create_stack_trace_request : Factory → ℕ → ℕ → ℕ → Made
unfolding create_request
create_stack_trace_request f thread_id start_frame levels =
    create_request f (spec stack_trace_spec) (
      some (
        ("threadId", num thread_id)
        ∷ ("startFrame", num start_frame)
        ∷ ("levels", num levels)
        ∷ []))

unfoldable pub create_scopes_request : Factory → ℕ → Made
unfolding create_request
create_scopes_request f frame_id =
    create_request f (spec scopes_spec) (some (("frameId", num frame_id) ∷ []))

unfoldable pub create_variables_request : Factory → ℕ → Made
unfolding create_request
create_variables_request f variables_reference =
    create_request f (spec variables_spec)
      (some (("variablesReference", num variables_reference) ∷ []))

unfoldable pub create_evaluate_request : Factory → String → Option ℕ → Made
unfolding create_request put_some
create_evaluate_request f expression frame_id =
    create_request f (spec evaluate_spec)
      (some (put_some "frameId" (number_value frame_id) (("expression", str expression) ∷ [])))
