-- ===== src/Protocol.antt =====
-- The factory of protocol messages: `ProtocolFactory` of dapper/protocol/protocol.py, with the
-- core constructors here, the specialised ones in Requests and Events, and `parse_message` in
-- Parsing.
pub mod Requests
pub mod Events
pub mod Parsing
pub mod Laws
pub mod Sequence
use dapper.Base.{
  ℕ, ◌+◌, String, string_eq, Bool, true, false, not, Option, none, some, List, [], ◌∷◌, ◌==◌,
  if◌then◌else◌,
}
use dapper.Base.Dict.{Dict, get, put}

-- Python's `int`
pub data ℤ : Type 0 where
  pos negsuc : ℕ → ℤ

-- The values that a message is made of: those of JSON whose numbers are integers.
mutual
  pub data Members : Type 0 where
    no_members : Members
    member : String → Json → Members → Members

  pub data Elements : Type 0 where
    no_elements : Elements
    element : Json → Elements → Elements

  pub data Json : Type 0 where
    null : Json
    bool : Bool → Json
    int : ℤ → Json
    str : String → Json
    arr : Elements → Json
    obj : Members → Json

abbrev pub Message : Type 0
Message = Dict String Json

abbrev pub members : Members → Message
members no_members = []
members (member key value rest) = (key, value) ∷ members rest

abbrev pub to_members : Message → Members
to_members [] = no_members
to_members ((key, value) ∷ rest) = member key value (to_members rest)

abbrev pub object : Message → Json
object m = obj (to_members m)

abbrev pub num : ℕ → Json
num n = int (pos n)

-- `d[key] = value` when there is a value
unfoldable pub put_some : String → Option Json → Message → Message
unfolding put
put_some key none m = m
put_some key (some value) m = put key value m

-- The classes that a specification names are given by their names.
pub record RequestSpec : Type 0 where
  pub command : String
  pub args_type : String
  pub return_type : String

pub data CommandOrSpec : Type 0 where
  named : String → CommandOrSpec
  spec : RequestSpec → CommandOrSpec

unfoldable pub command_of : CommandOrSpec → String
command_of (named command) = command
command_of (spec s) = s.command

-- The next number of `itertools.count`.
pub record Factory : Type 0 where
  pub seq_counter : ℕ

unfoldable pub init : ℕ → Factory
init seq_start = record { seq_counter = seq_start }

unfoldable pub next_seq : Factory → ℕ × Factory
next_seq f = (f.seq_counter, record { seq_counter = f.seq_counter + 1 })

-- The state after a constructor, and its message, or nothing when the constructor raises.
abbrev pub Made : Type 0
Made = Factory × Option Message

unfoldable pub create_request : Factory → CommandOrSpec → Option Message → Made
unfolding next_seq command_of
create_request f command_or_spec none =
    let numbered = next_seq f in
    (
      numbered.1,
      some (
          ("seq", num numbered.0)
          ∷ ("type", str "request")
          ∷ ("command", str (command_of command_or_spec))
          ∷ []),
    )
create_request f command_or_spec (some arguments) =
    let numbered = next_seq f in
    (
      numbered.1,
      some (
          ("seq", num numbered.0)
          ∷ ("type", str "request")
          ∷ ("command", str (command_of command_or_spec))
          ∷ ("arguments", object arguments)
          ∷ []),
    )

-- `request["command"]`, or `None` when the look-up raises
unfoldable pub command_in : Message → Json
unfolding get
command_in request = elim (get "command" request) [ none ↦ null | some command ↦ command ]

unfoldable pub envelope : ℕ → Json → Bool → Json → Message
envelope seq request_seq success command =
    ("seq", num seq)
    ∷ ("type", str "response")
    ∷ ("request_seq", request_seq)
    ∷ ("success", bool success)
    ∷ ("command", command)
    ∷ []

abbrev pub body_value : Option Message → Option Json
body_value none = none
body_value (some body) = some (object body)

abbrev pub text_value : Option String → Option Json
text_value none = none
text_value (some text) = some (str text)

-- The message of `create_response`; there is none when `request["seq"]` raises.
unfoldable pub response_message :
    ℕ → Option Json → Json → Bool → Option Message → Option String → Option Message
unfolding envelope put_some
response_message seq none command success body error_message = none
response_message seq (some request_seq) command success body error_message = some (
    put_some "message" (if success then none else text_value error_message)
      (put_some "body" (body_value body) (envelope seq request_seq success command)))

-- The number is taken before `request["seq"]` raises.
unfoldable pub create_response : Factory → Message → Bool → Option Message → Option String → Made
unfolding next_seq get command_in response_message
create_response f request success body error_message =
    let numbered = next_seq f in
    (
      numbered.1,
      response_message numbered.0 (get "seq" request) (command_in request) success body
          error_message,
    )

unfoldable pub create_error_response : Factory → Message → String → Made
unfolding create_response command_in
create_error_response f request error_message =
    create_response f request false
      (some (
        ("error", str "ProtocolError")
        ∷ ("details", object (("command", command_in request) ∷ []))
        ∷ []))
      (some error_message)

unfoldable pub create_event : Factory → String → Option Message → Made
unfolding next_seq put_some
create_event f event_type body =
    let numbered = next_seq f in
    (
      numbered.1,
      some (
          put_some "body" (body_value body)
            (("seq", num numbered.0) ∷ ("type", str "event") ∷ ("event", str event_type) ∷ [])),
    )
