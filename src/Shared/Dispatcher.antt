-- ===== src/Shared/Dispatcher.antt =====
-- dapper/shared/debug_shared.py: `CommandDispatcher`. Priorities are natural numbers.
pub mod Choice
use dapper.Base.{
  ℕ, String, Bool, true, false, not, Option, none, some, List, [], ◌∷◌, ◌++◌, leb, select, map,
  if◌then◌else◌,
}
use dapper.Base.Text.{Codes, codes}

-- A message for a client: a response to a request, or an error.
pub data Reply (RequestId : Type 0) : Type 0 where
  failed_response : RequestId → Codes → Reply RequestId
  error_message : Codes → Reply RequestId

-- A command as it comes: another value than a dictionary, or one with the text of its "command", ""
-- if there is none, its "arguments" if they are a dictionary, and its "id".
pub data Command (Arguments RequestId : Type 0) : Type 0 where
  fields : String → Option Arguments → Option RequestId → Command Arguments RequestId
  not_a_dict : Command Arguments RequestId

-- The providers, which are objects that the program is given: `same` is `is`, and `handle` gives
-- the session after the call, and the text of the exception if the call raises one; an exit of the
-- process is
-- not among its outcomes.
pub record Providers : Type 1 where
  pub Provider : Type 0
  pub State : Type 0
  pub Arguments : Type 0
  pub RequestId : Type 0
  pub no_arguments : Arguments
  pub same : Provider → Provider → Bool
  pub can_handle : Provider → String → Bool
  pub handle :
      Provider
      → State
      → Option RequestId
      → String
      → Arguments
      → Command Arguments RequestId
      → State × Option Codes

module _ (providers : Providers) where
  open providers use {Provider, State, Arguments, RequestId, no_arguments, same, can_handle, handle}

  abbrev pub Entry : Type 0
  Entry = ℕ × Provider

  -- `list.sort(key=..., reverse=True)`, which keeps the order of equal entries
  unfoldable pub insert : Entry → List Entry → List Entry
  insert e [] = e ∷ []
  insert e (f ∷ es) = let rest = insert e es in if leb f.0 e.0 then e ∷ f ∷ es else f ∷ rest

  unfoldable pub sort : List Entry → List Entry
  unfolding insert
  sort [] = []
  sort (e ∷ es) = insert e (sort es)

  unfoldable pub register_command_provider : List Entry → Provider → ℕ → List Entry
  unfolding sort
  register_command_provider es provider priority = sort (es ++ (priority, provider) ∷ [])

  unfoldable pub unregister_command_provider : List Entry → Provider → List Entry
  unfolding select
  unregister_command_provider es provider = select (λ e. not (same e.1 provider)) es

  -- The loop over the providers: the first that can handle the name.
  unfoldable pub first_able : String → List Entry → Option Entry
  first_able name [] = none
  first_able name (e ∷ es) = if can_handle e.1 name then some e else first_able name es

  -- `_send_error_for_exception` and `_send_unknown_command`
  unfoldable pub reply_of : Command Arguments RequestId → Codes → Reply RequestId
  reply_of not_a_dict message = error_message message
  reply_of (fields name arguments none) message = error_message message
  reply_of (fields name arguments (some cmd_id)) message = failed_response cmd_id message

  abbrev pub name_of : Command Arguments RequestId → String
  name_of not_a_dict = ""
  name_of (fields name arguments cmd_id) = name

  abbrev pub arguments_of : Command Arguments RequestId → Arguments
  arguments_of not_a_dict = no_arguments
  arguments_of (fields name none cmd_id) = no_arguments
  arguments_of (fields name (some arguments) cmd_id) = arguments

  abbrev pub id_of : Command Arguments RequestId → Option RequestId
  id_of not_a_dict = none
  id_of (fields name arguments cmd_id) = cmd_id

  abbrev pub unknown : String → Codes
  unknown name = codes "Unknown command: " ++ codes name

  abbrev pub failure : String → Codes → Codes
  failure name exc = codes "Error handling command " ++ (codes name ++ (codes ": " ++ exc))

  -- The session after the call, and what is sent.
  unfoldable pub dispatch_debug_command :
      List Entry → State → Command Arguments RequestId → State × List (Reply RequestId)
  unfolding first_able reply_of
  dispatch_debug_command es s command = elim (first_able (name_of command) es) [
    | none ↦ (s, reply_of command (unknown (name_of command)) ∷ [])
    | some e ↦
        let (s', exception) =
          handle e.1 s (id_of command) (name_of command) (arguments_of command) command in
        (
          s',
          elim exception [
            | none ↦ []
            | some exc ↦ reply_of command (failure (name_of command) exc) ∷ []
          ],
        )
  ]
