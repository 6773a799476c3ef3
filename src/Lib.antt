-- ===== src/Lib.antt =====
-- Dapper is a debugger for Python that speaks the Debug Adapter Protocol. An adapter talks to an
-- editor and, over a binary channel, to the debugger inside the debugged process. This library
-- models the decisions of that debugger: what it reads from the channel, which breakpoints stop the
-- program and what they write, which data and exceptions are watched, and how threads and frames
-- are kept.
--
-- Core/Breakpoints (dapper/core/breakpoint_manager.py): `BreakpointManager` is the record
--   `Manager`. The metadata of a line breakpoint is a mutable dictionary that `line_meta` and
--   `_line_meta_by_path` share, so it stands in a heap and the maps hold addresses; every method is
--   the function of its name. Refinement gives the flat table that the manager implements.
-- Core/HitCondition and Core/LogMessage (dapper/core/debug_utils.py): `evaluate_hit_condition` and
--   `format_log_message`, on lists of code points.
-- Core/Resolver (dapper/core/breakpoint_resolver.py): `BreakpointResolver.resolve`, which uses both
--   and Shared/Policy.
-- Shared/Policy (dapper/shared/value_conversion.py): `evaluate_with_policy`. `ast.parse` and `eval`
--   are a parameter, the record `Interpreter`.
-- Core/DataBreakpoints (dapper/core/data_breakpoint_state.py): the watches of `DataBreakpointState`
--   on variables, and in Expressions those on expressions, with the cache of compiled code. Values
--   are a parameter with their identity and with what `==` gives or raises.
-- Core/Exceptions (dapper/core/exception_handler.py, dapper/core/debug_helpers.py): the decision to
--   stop on an exception. The exception table of a code object and the search of the source text
--   are arguments.
-- Core/Threads (dapper/core/thread_tracker.py): `ThreadTracker`, over a memory of frame objects that
--   may be cyclic or unreadable.
-- Core/Variables (dapper/core/variable_manager.py): `VariableManager`; what it asks of a value is the
--   parameter `Inspector`. `none` is a call that ends with an exception.
-- Core/StructuredModel (dapper/core/structured_model.py): dataclasses, namedtuples and Pydantic
--   models, over what `getattr` and the type of a value give.
-- Core/JustMyCode (dapper/core/just_my_code.py): `is_user_path` and the prefixes that it uses.
-- Core/Stepping (dapper/core/stepping_controller.py): `SteppingController`.
-- Ipc/Frame and Ipc/Stream (dapper/ipc/ipc_binary.py): the frames of the channel, and `read_exact`
--   over a stream that is a parameter, with what a buffered reader promises as laws.
-- Ipc/Receiver (dapper/ipc/ipc_receiver.py): the loop `_receive_binary_commands`. The handlers, the
--   parsing of JSON and the terminated flag are the parameter `Host`.
-- Shared/Dispatcher (dapper/shared/debug_shared.py): `CommandDispatcher`; the providers are the
--   parameter `Providers`.
-- Core/Debugger (dapper/core/debugger_bdb.py): `DebuggerBDB` over the models above; a frame that
--   runs is the record `Frame`, and what the class inherits from `bdb.Bdb` and asks the interpreter
--   is the parameter `World`. Lines has `user_line` and `user_opcode`, Events the handlers of calls
--   and exceptions and the changes to breakpoints. `process_commands` is an argument. `Outcome`
--   keeps the state that an exception leaves. `resolve_dict` is the resolver on a dictionary
--   (dapper/core/breakpoint_resolver.py), which Core/Resolver/Dictionaries reads.
-- Shared/SteppingHandlers and Shared/BreakpointHandlers (dapper/shared/stepping_handlers.py and
--   breakpoint_handlers.py): the commands that resume the program and set breakpoints, as functions
--   of that debugger.
-- Shared/Registry (dapper/shared/runtime_source_registry.py) and Shared/Catalog
--   (dapper/shared/debug_shared.py): the texts of sources in memory and the numbers by which a
--   client asks for them. An entry is a mutable object that two maps share, so it stands in a heap.
-- FrameEval/CodeCache (dapper/_frame_eval/cache_manager.py): `FuncCodeInfoCache`, with code objects
--   known by numbers. FrameEval/BreakpointCache (the same file): `BreakpointCache`; the times at
--   which files change are an argument. FrameEval/CodeFiles (the same file): the modified code that
--   `CacheManager` keeps by code object and by file.
-- Protocol (dapper/protocol/protocol.py): `ProtocolFactory`; Requests and Events have a function for
--   each constructor, and Parsing `parse_message`. A message is a dictionary of JSON values, and
--   `json.loads` an argument. Sequence has the calls of a factory one after another.
-- Core/Tasks (dapper/core/asyncio_task_inspector.py): the names, waits and frames of asyncio tasks,
--   and in Registry `AsyncioTaskRegistry`. Tasks, coroutines and frames are the parameter
--   `Runtime`. The walk along the awaited objects has 64 rounds as in the source.
-- Adapter/Sources (dapper/adapter/source_tracker.py): `LoadedSourceTracker` over the parameter
--   `Files`; no module is imported while a loop over the modules runs.
-- Shared/StackHandlers (dapper/shared/stack_handlers.py): stackTrace, threads and scopes, with the
--   annotation of frames of dapper/shared/runtime_source_registry.py. Shared/SourceHandlers
--   (dapper/shared/source_handlers.py): loadedSources, source and modules; a module whose
--   `__package__` is `None` is not told from one without it.
-- FrameEval/Telemetry, FrameEval/Conditions, FrameEval/BytecodeSafety and FrameEval/Compatibility
--   (dapper/_frame_eval/telemetry.py, condition_evaluator.py, bytecode_safety.py and
--   compatibility_policy.py): each is the class or the functions of its file.
-- FrameEval/Tracer (dapper/_frame_eval/selective_tracer.py): `FrameTraceAnalyzer` in Analysis and
--   Updates, `SelectiveTraceDispatcher` in Dispatcher, `FrameTraceManager` in Manager, over
--   BreakpointCache, Conditions and Telemetry.
-- Base: dictionaries, sets and texts of Python. Tests: the theorems at concrete inputs.
--
-- A dictionary is an association list in insertion order, and a set the list of its members.
-- Numbers are natural; lengths and bytes of frames have their bounds written out. `lower` changes
-- the letters of ASCII only, and `\d` is a digit of ASCII. Fuel: `read_exact` of n bytes has n + 1
-- rounds, as each but the last reads a byte; the receive loop is given a bound by its theorems, the
-- bytes of the stream or the frames in it and one more; the walk up the callers has `max_depth`
-- rounds as in the source. The search for a free number of a source has as many rounds as there are
-- entries and one more.
--
-- Not modelled: sockets, processes and threads of the operating system, `bdb` and the tracing of the
-- interpreter, the generated frame evaluator and the rewriting of bytecode, the server of the
-- adapter and its handlers of requests, the launcher, the configuration, the editor extension, the
-- commands on variables, the search of handlers in source text, and the `sourceReference` of the
-- frames that a pause collects. The frames of a stop are kept without the `sourceReference` and the
-- `presentationHint` that are added to them, and a text that `str` gives for another "accessType" is
-- not told from a missing one. Values whose `isinstance`, `hasattr` or `callable` raise are outside
-- Core/Variables and Core/StructuredModel, and numbers of JSON with a fraction outside Protocol.
pub mod FrameEval
pub mod Base
pub mod Core
pub mod Ipc
pub mod Shared
pub mod Tests
pub mod Protocol
pub mod Adapter
