-- ===== src/Ipc/Receiver.antt =====
-- dapper/ipc/ipc_receiver.py: `_receive_binary_commands`, with `exit_if_alive` of
-- dapper/shared/debug_shared.py.
use dapper.Base.{
  ℕ, zero, suc, ◌+◌, ◌≤◌, ◌<◌, ◌≡◌, refl, Bool, true, false, Option, none, some, List, [], ◌∷◌,
  ◌++◌, arith, nat_eq, ◌==◌, length, if◌then◌else◌,
}
use dapper.Ipc.Frame.{Bytes, FrameError, Result, ok, err, header_size, unpack_header}
use dapper.Ipc.Stream.{Stream, Outcome, done, failed, out_of_fuel, read_exact}
pub mod Delivery
pub mod Totality

pub data Message : Type 0 where
  bad_frame_header : FrameError → Message
  receive_error : Message

-- How the dispatch of a command ends.
pub data Handled : Type 0 where
  handled system_exit raised : Handled

abbrev pub kind_command : ℕ
kind_command = 2

-- What the loop reads and writes of the session: the state that the handlers change, the queue of
-- commands, the messages sent, and the calls of `exit_func`.
pub record Session (S C : Type 0) : Type 0 where
  pub state : S
  pub command_queue : List C
  pub messages : List Message
  pub exits : List ℕ

-- What the loop calls: `json.loads(payload.decode("utf-8"))`, which may raise; the flag that
-- another thread or a handler sets; and `dispatch_debug_command`.
pub record Host : Type 1 where
  pub State : Type 0
  pub Command : Type 0
  pub parse : Bytes → Option Command
  pub is_terminated : State → Bool
  pub dispatch : State → Command → Handled × State

module _ (host : Host) where
  abbrev pub Live : Type 0
  Live = Session (host.State) (host.Command)

  unfoldable pub exit_if_alive : Live → ℕ → Live
  exit_if_alive session status =
      if host.is_terminated session.state
      then session
      else record session { exits = session.exits ++ status ∷ [] }

  unfoldable pub send_error : Live → Message → Live
  send_error session message = record session { messages = session.messages ++ message ∷ [] }

  -- What is left of a command: to go on from a session, or to return it.
  pub data Next : Type 0 where
    go_on : Live → Next
    stop : Live → Next

  unfoldable pub dispatched : Live → Handled × host.State → Next
  unfolding send_error
  dispatched session (handled, state) = go_on (record session { state = state })
  dispatched session (system_exit, state) = stop (record session { state = state })
  dispatched session (raised, state) =
      go_on (send_error (record session { state = state }) receive_error)

  -- The `try` block: the command is queued, then dispatched; any exception is reported.
  unfoldable pub receive_command : Live → Bytes → Next
  unfolding dispatched send_error
  receive_command session payload = elim (host.parse payload) [
    | none ↦ go_on (send_error session receive_error)
    | some command ↦
        dispatched (record session { command_queue = session.command_queue ++ command ∷ [] })
          (host.dispatch session.state command)
  ]

module _ (host : Host) (stream : Stream) where
  abbrev pub Again : Type 0
  Again = stream.State → Live host → Option (Live host)

  unfoldable pub after_command : Again → stream.State → Next host → Option (Live host)
  after_command again s (go_on session) = again s session
  after_command again s (stop session) = some session

  unfoldable pub on_payload : Again → Live host → ℕ → Outcome stream.State → Option (Live host)
  unfolding after_command receive_command exit_if_alive
  on_payload again session kind failed = some (exit_if_alive host session 0)
  on_payload again session kind out_of_fuel = none
  on_payload again session kind (done [] s) = some (exit_if_alive host session 0)
  on_payload again session kind (done (b ∷ bs) s) = elim (kind == kind_command) [
    | true ↦ after_command again s (receive_command host session (b ∷ bs))
    | false ↦ again s session
  ]

  unfoldable pub on_frame : Again → Live host → stream.State → Result (ℕ × ℕ) → Option (Live host)
  unfolding on_payload send_error read_exact
  on_frame again session s (err e) = again s (send_error host session (bad_frame_header e))
  on_frame again session s (ok (kind, size)) =
      on_payload again session kind (read_exact stream s size)

  unfoldable pub on_header : Again → Live host → Outcome stream.State → Option (Live host)
  unfolding on_frame unpack_header exit_if_alive
  on_header again session failed = some (exit_if_alive host session 0)
  on_header again session out_of_fuel = none
  on_header again session (done [] s) = some (exit_if_alive host session 0)
  on_header again session (done (b ∷ bs) s) = on_frame again session s (unpack_header (b ∷ bs))

  -- The loop; `none` when the fuel runs out.
  unfoldable pub receive : ℕ → stream.State → Live host → Option (Live host)
  unfolding on_header read_exact
  receive zero s session = none
  receive (suc fuel) s session = elim (host.is_terminated session.state) [
    | true ↦ some session
    | false ↦
        on_header (λ s' session'. receive fuel s' session') session
          (read_exact stream s header_size)
  ]
