-- ===== src/Protocol/Parsing.antt =====
-- Reading a message: `ProtocolFactory.parse_message` of dapper/protocol/protocol.py. `loads`
-- stands for `json.loads`.
use dapper.Base.{String, string_eq, Bool, false, none, some, List, [], ◌∷◌, ◌==◌, if◌then◌else◌}
use dapper.Base.Dict.{get, has}
use dapper.Protocol.{Json, str, obj, Message, members}

-- What `json.loads` does with a text: a value, a `JSONDecodeError`, or another exception.
pub data Loaded : Type 0 where
  parsed : Json → Loaded
  decode_error failed : Loaded

-- One constructor for each `raise` of the parser.
pub data ProtocolError : Type 0 where
  not_json unreadable not_object missing_seq missing_type missing_request_command : ProtocolError
  missing_response_field : String → ProtocolError
  missing_event : ProtocolError
  invalid_type : Json → ProtocolError

pub data Parsed : Type 0 where
  ok : Message → Parsed
  raise : ProtocolError → Parsed

-- `value == text`
unfoldable pub is_text : String → Json → Bool
is_text text (str s) = s == text
is_text text value = false

unfoldable pub validate_request : Message → Parsed
unfolding has
validate_request m = if has "command" m then ok m else raise missing_request_command

unfoldable pub validate_response_fields : List String → Message → Parsed
unfolding has
validate_response_fields [] m = ok m
validate_response_fields (key ∷ keys) m =
    let rest = validate_response_fields keys m in
    if has key m then rest else raise (missing_response_field key)

unfoldable pub validate_response : Message → Parsed
unfolding validate_response_fields
validate_response m = validate_response_fields ("request_seq" ∷ "success" ∷ "command" ∷ []) m

unfoldable pub validate_event : Message → Parsed
unfolding has
validate_event m = if has "event" m then ok m else raise missing_event

-- The tests on the value of `type`.
unfoldable pub validate_typed : Json → Message → Parsed
unfolding is_text validate_request validate_response validate_event
validate_typed msg_type m =
    if is_text "request" msg_type
    then validate_request m
    else if is_text "response" msg_type
    then validate_response m
    else if is_text "event" msg_type
    then validate_event m
    else raise (invalid_type msg_type)

unfoldable pub validate_message : Message → Parsed
unfolding has get validate_typed
validate_message m =
    if has "seq" m
    then (elim (get "type" m) [
      | none ↦ raise missing_type
      | some msg_type ↦ validate_typed msg_type m
    ])
    else raise missing_seq

unfoldable pub validate_value : Json → Parsed
unfolding validate_message
validate_value (obj m) = validate_message (members m)
validate_value value = raise not_object

unfoldable pub parse_loaded : Loaded → Parsed
unfolding validate_value
parse_loaded (parsed value) = validate_value value
parse_loaded decode_error = raise not_json
parse_loaded failed = raise unreadable

unfoldable pub parse_message : (String → Loaded) → String → Parsed
unfolding parse_loaded
parse_message loads message_json = parse_loaded (loads message_json)
