-- ===== src/Protocol/Sequence.antt =====
-- The calls of a factory one after another: any constructor of `ProtocolFactory` of
-- dapper/protocol/protocol.py is a call, and the messages carry the numbers in the order of the
-- calls.
use dapper.Base.{
  ℕ, zero, suc, ◌+◌, String, string_eq, Bool, true, false, Option, none, some, List, [], ◌∷◌, ◌≡◌,
  refl, ap, ◌∙◌, arith, get_elem?,
}
use mathlib.Core.Path.{subst}
use mathlib.Core.Option.{some-injective}
use dapper.Base.Dict.{get, put, has}
use dapper.Core.Stepping.{StepGranularity}
use dapper.Protocol.{
  ℤ, Json, str, Elements, Message, object, Factory, num, put_some, create_request, create_response,
  create_event, create_error_response, next_seq, CommandOrSpec, envelope, command_in, Made,
  response_message,
}
use dapper.Protocol.Requests.{
  create_initialize_request, create_launch_request, create_configuration_done_request,
  create_set_breakpoints_request, create_continue_request, create_next_request,
  create_step_in_request, create_step_out_request, create_threads_request,
  create_stack_trace_request, create_scopes_request, create_variables_request,
  create_evaluate_request,
}
use dapper.Protocol.Events.{
  create_initialized_event, create_stopped_event, create_exited_event, create_terminated_event,
  create_thread_event, create_output_event, create_breakpoint_event,
}
use dapper.Protocol.Parsing.{Loaded, parsed, ok, parse_message}
use dapper.Protocol.Laws.{
  IsValid, request, response, event, validate_message-valid, parse_message-object,
}

-- A call of a constructor with its arguments.
pub data Call : Type 0 where
  any_request : CommandOrSpec → Option Message → Call
  any_response : Message → Bool → Option Message → Option String → Call
  any_error_response : Message → String → Call
  any_event : String → Option Message → Call
  initialize_request : String → String → Call
  launch_request : String → Option Elements → Bool → Call
  configuration_done_request : Call
  set_breakpoints_request : Json → Elements → Call
  continue_request : ℕ → Call
  next_request : ℕ → StepGranularity → Call
  step_in_request : ℕ → Option ℕ → StepGranularity → Call
  step_out_request : ℕ → StepGranularity → Call
  threads_request : Call
  stack_trace_request : ℕ → ℕ → ℕ → Call
  scopes_request : ℕ → Call
  variables_request : ℕ → Call
  evaluate_request : String → Option ℕ → Call
  initialized_event : Call
  stopped_event : String → ℕ → Option String → Call
  exited_event : ℤ → Call
  terminated_event : Bool → Call
  thread_event : String → ℕ → Call
  output_event : String → String → Call
  breakpoint_event : String → Message → Call

unfoldable pub create : Factory → Call → Made
create f (any_request c arguments) = create_request f c arguments
create f (any_response r success body message) = create_response f r success body message
create f (any_error_response r message) = create_error_response f r message
create f (any_event event_type body) = create_event f event_type body
create f (initialize_request client adapter) = create_initialize_request f client adapter
create f (launch_request program args no_debug) = create_launch_request f program args no_debug
create f configuration_done_request = create_configuration_done_request f
create f (set_breakpoints_request source bps) = create_set_breakpoints_request f source bps
create f (continue_request thread) = create_continue_request f thread
create f (next_request thread granularity) = create_next_request f thread granularity
create f (step_in_request thread target granularity) =
    create_step_in_request f thread target granularity
create f (step_out_request thread granularity) = create_step_out_request f thread granularity
create f threads_request = create_threads_request f
create f (stack_trace_request thread start levels) =
    create_stack_trace_request f thread start levels
create f (scopes_request frame) = create_scopes_request f frame
create f (variables_request reference) = create_variables_request f reference
create f (evaluate_request expression frame) = create_evaluate_request f expression frame
create f initialized_event = create_initialized_event f
create f (stopped_event reason thread text) = create_stopped_event f reason thread text
create f (exited_event exit_code) = create_exited_event f exit_code
create f (terminated_event restart) = create_terminated_event f restart
create f (thread_event reason thread) = create_thread_event f reason thread
create f (output_event output category) = create_output_event f output category
create f (breakpoint_event reason info) = create_breakpoint_event f reason info

abbrev pub Every : (Message → Type 0) → Option Message → Type 0
Every P none = Unit
Every P (some m) = P m

-- A message with a sequence number that `parse_message` accepts.
pub record IsNumbered (seq : ℕ) (m : Message) : Type 0 where
  pub numbered : get "seq" m ≡ some (num seq)
  pub valid : IsValid m

-- One call moves the counter on by one, and the message it makes has the number before.
pub record IsMade (f : Factory) (made : Made) : Type 0 where
  pub next : made.0.seq_counter ≡ f.seq_counter + 1
  pub message : Every (IsNumbered f.seq_counter) made.1

pub create_request-IsMade :
    (f : Factory) (c : CommandOrSpec) (arguments : Option Message)
    → IsMade f (create_request f c arguments)
unfolding create_request next_seq get has
create_request-IsMade f c none = record {
  next = refl;
  message = record { numbered = refl; valid = request refl refl };
}
create_request-IsMade f c (some arguments) = record {
  next = refl;
  message = record { numbered = refl; valid = request refl refl };
}

pub create_event-IsMade :
    (f : Factory) (event_type : String) (body : Option Message)
    → IsMade f (create_event f event_type body)
unfolding create_event next_seq get has put_some put
create_event-IsMade f event_type none = record {
  next = refl;
  message = record { numbered = refl; valid = event refl refl };
}
create_event-IsMade f event_type (some body) = record {
  next = refl;
  message = record { numbered = refl; valid = event refl refl };
}

response_message-IsNumbered :
    (seq : ℕ) (request_seq : Option Json) (command : Json) (success : Bool) (body : Option Message)
    (message : Option String)
    → Every (IsNumbered seq) (response_message seq request_seq command success body message)
unfolding response_message envelope put_some put get has
response_message-IsNumbered seq none c success body message = tt
response_message-IsNumbered seq (some r) c true none message = record {
  numbered = refl;
  valid = response refl refl refl refl;
}
response_message-IsNumbered seq (some r) c true (some b) message = record {
  numbered = refl;
  valid = response refl refl refl refl;
}
response_message-IsNumbered seq (some r) c false none none = record {
  numbered = refl;
  valid = response refl refl refl refl;
}
response_message-IsNumbered seq (some r) c false none (some t) = record {
  numbered = refl;
  valid = response refl refl refl refl;
}
response_message-IsNumbered seq (some r) c false (some b) none = record {
  numbered = refl;
  valid = response refl refl refl refl;
}
response_message-IsNumbered seq (some r) c false (some b) (some t) = record {
  numbered = refl;
  valid = response refl refl refl refl;
}

pub create_response-IsMade :
    (f : Factory) (r : Message) (success : Bool) (body : Option Message) (message : Option String)
    → IsMade f (create_response f r success body message)
unfolding create_response next_seq
create_response-IsMade f r success body message = record {
  next = refl;
  message =
      response_message-IsNumbered f.seq_counter (get "seq" r) (command_in r) success body message;
}

pub create-IsMade : (f : Factory) (c : Call) → IsMade f (create f c)
unfolding create create_error_response create_initialized_event create_stopped_event
    create_exited_event create_terminated_event create_thread_event create_output_event
    create_breakpoint_event create_initialize_request create_launch_request
    create_configuration_done_request create_set_breakpoints_request create_continue_request
    create_next_request create_step_in_request create_step_out_request create_threads_request
    create_stack_trace_request create_scopes_request create_variables_request
    create_evaluate_request
create-IsMade f (any_request c arguments) = create_request-IsMade f c arguments
create-IsMade f (any_response r success body message) =
    create_response-IsMade f r success body message
create-IsMade f (any_error_response r message) =
    create_response-IsMade f r false
      (some (
        ("error", str "ProtocolError") ∷ ("details", object (("command", command_in r) ∷ [])) ∷ []))
      (some message)
create-IsMade f (any_event event_type body) = create_event-IsMade f event_type body
create-IsMade f (initialize_request client adapter) = search create_request-IsMade
create-IsMade f (launch_request program args no_debug) = search create_request-IsMade
create-IsMade f configuration_done_request = search create_request-IsMade
create-IsMade f (set_breakpoints_request source bps) = search create_request-IsMade
create-IsMade f (continue_request thread) = search create_request-IsMade
create-IsMade f (next_request thread granularity) = search create_request-IsMade
create-IsMade f (step_in_request thread target granularity) = search create_request-IsMade
create-IsMade f (step_out_request thread granularity) = search create_request-IsMade
create-IsMade f threads_request = search create_request-IsMade
create-IsMade f (stack_trace_request thread start levels) = search create_request-IsMade
create-IsMade f (scopes_request frame) = search create_request-IsMade
create-IsMade f (variables_request reference) = search create_request-IsMade
create-IsMade f (evaluate_request expression frame) = search create_request-IsMade
create-IsMade f initialized_event = search create_event-IsMade
create-IsMade f (stopped_event reason thread text) = search create_event-IsMade
create-IsMade f (exited_event exit_code) = search create_event-IsMade
create-IsMade f (terminated_event restart) = search create_event-IsMade
create-IsMade f (thread_event reason thread) = search create_event-IsMade
create-IsMade f (output_event output category) = search create_event-IsMade
create-IsMade f (breakpoint_event reason info) = search create_event-IsMade

-- The messages of calls made one after another; a call that raises makes none.
unfoldable pub create_all : Factory → List Call → List (Option Message)
create_all f [] = []
create_all f (c ∷ cs) = let made = create f c in made.1 ∷ create_all made.0 cs

Every-some :
    (P : Message → Type 0) (o : Option Message) (m : Message)
    → Every P o
    → some o ≡ some (some m)
    → P m
Every-some P none m e h = absurd (ground arith)
Every-some P (some m') m e h = subst P (some-injective m' m (some-injective _ _ h)) e

add_zero : (n : ℕ) → n ≡ n + 0
add_zero n = omega arith

has-get : (key : String) (m : Message) (v : Json) → get key m ≡ some v → has key m ≡ true
unfolding has
has-get key m v h = rw (h, has) refl

-- In a sequence of calls of one factory, the message that the call number `i` makes has the
-- number `seq_start + i`, also when calls before it raised, and is one that parses.
pub create_all-at :
    (f : Factory) (cs : List Call) (i : ℕ) (m : Message)
    → get_elem? (create_all f cs) i ≡ some (some m)
    → IsNumbered (f.seq_counter + i) m
unfolding create_all
create_all-at f [] i m h = absurd (ground arith)
create_all-at f (c ∷ cs) zero m h =
    subst (λ seq. IsNumbered seq m) (add_zero f.seq_counter)
      (Every-some (IsNumbered f.seq_counter) (create f c).1 m (create-IsMade f c).message h)
create_all-at f (c ∷ cs) (suc i) m h =
    subst (λ seq. IsNumbered seq m) (omega (arith, (create-IsMade f c).next))
      (create_all-at (create f c).0 cs i m h)

-- Whatever constructor is called, on whatever arguments, a text that `json.loads` reads as its
-- message is parsed back to that message.
pub parse_message-create :
    (loads : String → Loaded) (text : String) (f : Factory) (c : Call) (m : Message)
    → (create f c).1 ≡ some m
    → loads text ≡ parsed (object m)
    → parse_message loads text ≡ ok m
parse_message-create loads text f c m made h =
    let is =
      Every-some (IsNumbered f.seq_counter) (create f c).1 m (create-IsMade f c).message
        (ap some made) in
    parse_message-object loads text m h
    ∙ validate_message-valid m (has-get "seq" m (num f.seq_counter) is.numbered) is.valid
