-- ===== src/Core/Debugger/Steps.antt =====
-- The step that a client asks for, from the request to the stop.
use dapper.Base.{none, List, [], ◌∷◌, if◌then◌else◌}
use dapper.Core.Stepping.{get_stop_reason, consume_stop_state}
use dapper.Core.Threads.{Tracker, is_thread_registered}
use dapper.Core.Debugger.{
  World, Frame, Debugger, Message, thread_started, ensure_thread_registered, emit_stopped_event,
}

module _ (world : World) (p : Debugger world → Debugger world) (frame : Frame world)
    (d : Debugger world) where
  -- The state that the client's commands find at the stop of a step.
  abbrev pub before_commands : Debugger world
  before_commands =
      let known = ensure_thread_registered world d in
      emit_stopped_event world
        (record known { controller = (consume_stop_state known.controller).1 }) frame
        (get_stop_reason known.controller) none

-- What the client hears of the thread that stops: nothing, if it is known.
abbrev announced : World → Tracker → List Message
announced world t =
    if is_thread_registered t world.thread_id
    then []
    else thread_started world.thread_id world.thread_name ∷ []
