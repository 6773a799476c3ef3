-- ===== src/Protocol/Laws.antt =====
-- What `parse_message` of dapper/protocol/protocol.py accepts, and that it reads back what the
-- constructors make.
use dapper.Base.{
  String, string_eq, true, some, [], ◌∷◌, ◌≡◌, refl, sym, ap, ◌∙◌, inl, inr, ◌↔◌, arith, Bool-cases,
  Option-cases,
}
use dapper.Base.Dict.{get, has}
use dapper.Protocol.{Json, null, bool, int, str, arr, obj, Message, members, to_members, object}
use dapper.Protocol.Parsing.{
  Loaded, parsed, ok, is_text, parse_loaded, validate_value, validate_message, validate_typed,
  validate_request, validate_response, validate_response_fields, validate_event, parse_message,
}

-- The fields that a message of each type has.
pub data IsValid (m : Message) : Type 0 where
  request : get "type" m ≡ some (str "request") → has "command" m ≡ true → IsValid m
  response :
      get "type" m ≡ some (str "response")
      → has "request_seq" m ≡ true
      → has "success" m ≡ true
      → has "command" m ≡ true
      → IsValid m
  event : get "type" m ≡ some (str "event") → has "event" m ≡ true → IsValid m

pub members-to_members : (m : Message) → members (to_members m) ≡ m
members-to_members [] = refl
members-to_members ((key, value) ∷ m) = ap (◌∷◌ (key, value)) (members-to_members m)

pub validate_message-valid :
    (m : Message) → has "seq" m ≡ true → IsValid m → validate_message m ≡ ok m
unfolding validate_message validate_typed is_text validate_request validate_response
    validate_response_fields validate_event
validate_message-valid m s (request t c) = rw (s, t, c) refl
validate_message-valid m s (response t a b c) = rw (s, t, a, b, c) refl
validate_message-valid m s (event t e) = rw (s, t, e) refl

is_text-str : (text : String) (value : Json) → is_text text value ≡ true → value ≡ str text
unfolding is_text
is_text-str text (str s) h = ap str ((string_eq.beq_iff s text).0 h)
is_text-str text null h = absurd (ground arith)
is_text-str text (bool b) h = absurd (ground arith)
is_text-str text (int i) h = absurd (ground arith)
is_text-str text (arr x) h = absurd (ground arith)
is_text-str text (obj x) h = absurd (ground arith)

validate_request-IsValid :
    (m r : Message)
    → get "type" m ≡ some (str "request")
    → validate_request m ≡ ok r
    → IsValid m × (r ≡ m)
unfolding validate_request
validate_request-IsValid m r t h = elim (Bool-cases (has "command" m)) [
  | inl c ↦ (request t c, ground arith)
  | inr c ↦ absurd (ground arith)
]

validate_response-IsValid :
    (m r : Message)
    → get "type" m ≡ some (str "response")
    → validate_response m ≡ ok r
    → IsValid m × (r ≡ m)
unfolding validate_response validate_response_fields
validate_response-IsValid m r t h =
    (response t (ground arith) (ground arith) (ground arith), ground arith)

validate_event-IsValid :
    (m r : Message)
    → get "type" m ≡ some (str "event")
    → validate_event m ≡ ok r
    → IsValid m × (r ≡ m)
unfolding validate_event
validate_event-IsValid m r t h = elim (Bool-cases (has "event" m)) [
  | inl c ↦ (event t c, ground arith)
  | inr c ↦ absurd (ground arith)
]

validate_typed-IsValid :
    (m r : Message) (value : Json)
    → get "type" m ≡ some value
    → validate_typed value m ≡ ok r
    → IsValid m × (r ≡ m)
unfolding validate_typed
validate_typed-IsValid m r value t h = elim (Bool-cases (is_text "request" value)) [
  | inl a ↦
      validate_request-IsValid m r (t ∙ ap some (is_text-str "request" value a)) (ground arith)
  | inr a ↦ elim (Bool-cases (is_text "response" value)) [
    | inl b ↦
        validate_response-IsValid m r (t ∙ ap some (is_text-str "response" value b)) (ground arith)
    | inr b ↦ elim (Bool-cases (is_text "event" value)) [
      | inl c ↦
          validate_event-IsValid m r (t ∙ ap some (is_text-str "event" value c)) (ground arith)
      | inr c ↦ absurd (ground arith)
    ]
  ]
]

pub validate_message-IsValid :
    (m r : Message) → validate_message m ≡ ok r → (has "seq" m ≡ true) × IsValid m × (r ≡ m)
unfolding validate_message
validate_message-IsValid m r h = elim (Bool-cases (has "seq" m)) [
  | inr s ↦ absurd (ground arith)
  | inl s ↦ elim (Option-cases (get "type" m)) [
    | inl t ↦ absurd (ground arith)
    | inr (value, t) ↦
        let typed = validate_typed-IsValid m r value t (ground arith) in (s, typed.0, typed.1)
  ]
]

pub parse_message-object :
    (loads : String → Loaded) (text : String) (m : Message)
    → loads text ≡ parsed (object m)
    → parse_message loads text ≡ validate_message m
unfolding parse_message parse_loaded validate_value
parse_message-object loads text m h = ap parse_loaded h ∙ ap validate_message (members-to_members m)

-- A text that `json.loads` reads as an object is accepted exactly when the object has a `seq`
-- and the fields that a message of its type has; then the object itself is returned.
pub parse_message-ok :
    (loads : String → Loaded) (text : String) (m r : Message)
    → loads text ≡ parsed (object m)
    → (parse_message loads text ≡ ok r) ↔ ((has "seq" m ≡ true) × IsValid m × (r ≡ m))
parse_message-ok loads text m r h = (
  (λ accepted. validate_message-IsValid m r (sym (parse_message-object loads text m h) ∙ accepted)),
  (λ valid.
      parse_message-object loads text m h
      ∙ validate_message-valid m valid.0 valid.1
      ∙ ap ok (sym valid.2)),
)
