-- ===== src/Tests/Protocol.antt =====
-- The theorems on dapper/protocol/protocol.py at messages of a short conversation.
use dapper.Base.{String, string_eq, List, [], ◌∷◌, ◌≡◌, refl}
use dapper.Protocol.{negsuc, Json, str, Message, object, num, init, create_error_response}
use dapper.Protocol.Requests.{create_threads_request}
use dapper.Protocol.Events.{create_exited_event}
use dapper.Protocol.Parsing.{Loaded, parsed, ok, parse_message}
use dapper.Protocol.Sequence.{
  Call, any_error_response, exited_event, threads_request, create, create_all, IsNumbered,
  create_all-at, parse_message-create,
}

-- A request without a number, for which no response can be made.
abbrev unnumbered : Message
unnumbered = ("command", str "launch") ∷ []

abbrev calls : List Call
calls = threads_request ∷ any_error_response unnumbered "no program" ∷ exited_event (negsuc 0) ∷ []

abbrev exited : Message
exited =
    ("seq", num 3)
    ∷ ("type", str "event")
    ∷ ("event", str "exited")
    ∷ ("body", object (("exitCode", Json.int (negsuc 0)) ∷ []))
    ∷ []

abbrev loads : String → Loaded
loads text = parsed (object exited)

create_all-at_example : IsNumbered 3 exited
unfolding create_all create create_exited_event create_error_response create_threads_request init
create_all-at_example = create_all-at (init 1) calls 2 exited refl

parse_message-create_example : parse_message loads "{}" ≡ ok exited
unfolding create create_exited_event init
parse_message-create_example =
    parse_message-create loads "{}" (init 3) (exited_event (negsuc 0)) exited refl refl
