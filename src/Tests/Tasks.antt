-- ===== src/Tests/Tasks.antt =====
-- The theorems on dapper/core/asyncio_task_inspector.py in a program with two tasks, one of
-- which waits for a coroutine that waits for another.
use dapper.Base.{ℕ, zero, suc, true, false, none, some, [], ◌∷◌, ◌≡◌, All, nat_eq}
use dapper.Base.Text.{codes}
use dapper.Core.Tasks.{Runtime, Awaitable, CodeNames, future}
use dapper.Core.Tasks.Registry.{init, snapshot_threads, is_task_thread_id}
use dapper.Core.Tasks.Routing.{IsRouted, snapshot_threads-IsRouted}

-- The object `n + 1` waits for `n`, and 0 is a generator without a frame.
abbrev waiting : ℕ → Awaitable ℕ ℕ
waiting zero = record {
  cr_frame = none;
  cr_await = none;
  gi_frame = some none;
  gi_yieldfrom = none;
  ag_frame = none;
  ag_await = none;
}
waiting (suc n) = record {
  cr_frame = some (some n);
  cr_await = some n;
  gi_frame = none;
  gi_yieldfrom = none;
  ag_frame = none;
  ag_await = none;
}

abbrev names : CodeNames
names = record { co_filename = some (codes "/app/main.py"); co_name = some (codes "work") }

abbrev py : Runtime
py = record {
  Task = ℕ;
  Object = ℕ;
  Frame = ℕ;
  task_id = λ t. t;
  object_id = λ o. o;
  get_name = λ t. some (codes "Task-1");
  get_coro = λ t. some (some t);
  qualified_name = λ o. some (codes "work");
  plain_name = λ o. some [];
  awaitable = waiting;
  f_code = λ f. some names;
  f_lineno = λ f. some f;
  cancelled = λ t. false;
  done = λ t. false;
  fut_waiter = λ t. some (future (some false));
  path_name = λ p. p;
  inspects = λ t. true;
  every_task = some (2 ∷ 7 ∷ []);
  running_loop_tasks = none;
}

snapshot_threads-IsRouted_example :
    IsRouted py (snapshot_threads py (init py)).1
    × All
        (λ thread. is_task_thread_id py (snapshot_threads py (init py)).1 thread.id ≡ true)
        (snapshot_threads py (init py)).0
snapshot_threads-IsRouted_example = snapshot_threads-IsRouted py (init py)
