-- ===== src/Scheduler.antt =====
-- server/scheduler.h and scheduler.cc: the task queue, the scan of `run`, and the stop condition.
-- A thread id of -1 (any thread) is `none`. Each operation runs under the scheduler's mutex.
pub mod Queue
pub mod Stopping
pub mod Examples
use zjh_server.Base.{
  ℕ, ◌+◌, ◌-◌, ◌^◌, List, [], ◌∷◌, ◌++◌, ltb, ◌==◌, if◌then◌else◌, Bool, true, false, not, ◌&&◌,
  ◌||◌, Option, none, some,
}

pub record ScheduleTask : Type 0 where
  pub fiber : Option ℕ
  pub cb : Option ℕ
  pub thread : Option ℕ

abbrev pub is_some : Option ℕ → Bool
is_some none = false
is_some (some x) = true

pub record Scheduler : Type 0 where
  pub tasks : List ScheduleTask
  pub thread_count : ℕ
  pub active_thread_count : ℕ
  pub idle_thread_count : ℕ
  pub stopping_flag : Bool

-- `ScheduleTask(Fiber::ptr, int)`, `ScheduleTask(std::function, int)` and `reset`.
unfoldable pub fiber_task : Option ℕ → Option ℕ → ScheduleTask
fiber_task f thr = record { fiber = f; cb = none; thread = thr }

unfoldable pub cb_task : Option ℕ → Option ℕ → ScheduleTask
cb_task f thr = record { fiber = none; cb = f; thread = thr }

unfoldable pub reset_task : ScheduleTask → ScheduleTask
reset_task t = record { fiber = none; cb = none; thread = none }

abbrev pub is_empty : List ScheduleTask → Bool
is_empty [] = true
is_empty (t ∷ ts) = false

abbrev pub is_task : ScheduleTask → Bool
is_task t = is_some t.fiber || is_some t.cb

-- The second result tells `schedule` to tickle.
unfoldable pub schedule_no_lock : ScheduleTask → Scheduler → Scheduler × Bool
schedule_no_lock t s =
    ((if is_task t then record s { tasks = s.tasks ++ t ∷ [] } else s), is_empty s.tasks)

unfoldable pub schedule : ScheduleTask → Scheduler → Scheduler × Bool
unfolding schedule_no_lock
schedule t s = schedule_no_lock t s

-- Whether a task is bound to another thread than `me`.
abbrev pub elsewhere : ℕ → Option ℕ → Bool
elsewhere me none = false
elsewhere me (some thr) = not (thr == me)

-- Whether the fiber of a task is still running, as `running` says of each fiber.
abbrev pub busy : (ℕ → Bool) → Option ℕ → Bool
busy running none = false
busy running (some f) = running f

pub record Scan : Type 0 where
  pub taken : Option ScheduleTask
  pub rest : List ScheduleTask
  pub tickle_me : Bool

-- The walk over the queue: tasks of other threads are passed and will tickle, running fibers are
-- passed, and the first other task is taken. The assertion that a task has a fiber or a callback is
-- left out: `schedule` puts no other task into the queue.
unfoldable pub scan : ℕ → (ℕ → Bool) → List ScheduleTask → Scan
scan me running [] = record { taken = none; rest = []; tickle_me = false }
scan me running (t ∷ ts) =
    let r = scan me running ts in
    if elsewhere me t.thread
    then record { taken = r.taken; rest = t ∷ r.rest; tickle_me = true }
    else (if busy running t.fiber
        then record { taken = r.taken; rest = t ∷ r.rest; tickle_me = r.tickle_me }
        else record { taken = some t; rest = ts; tickle_me = not (is_empty ts) })

-- One round of `run` up to the resume: the task that the thread runs, and whether it tickles.
unfoldable pub take_task : ℕ → (ℕ → Bool) → Scheduler → Scheduler × Option ScheduleTask × Bool
unfolding scan
take_task me running s =
    let r = scan me running s.tasks in
    elim r.taken [
      | none ↦ (record s { tasks = r.rest }, none, r.tickle_me)
      | some t ↦ (
        record s { tasks = r.rest; active_thread_count = s.active_thread_count + 1 },
        some t,
        r.tickle_me,
      )
    ]

-- `--` on an atomic counter of 64 bits. The counts of threads stay below 2 ^ 64 when they grow.
abbrev pub decrement : ℕ → ℕ
decrement n = if n == 0 then 2 ^ 64 - 1 else n - 1

-- After the resume of a task: the thread is no longer active.
unfoldable pub finish_task : Scheduler → Scheduler
finish_task s = record s { active_thread_count = decrement s.active_thread_count }

unfoldable pub stopping : Scheduler → Bool
stopping s = s.stopping_flag && is_empty s.tasks && s.active_thread_count == 0

unfoldable pub enter_idle : Scheduler → Scheduler
enter_idle s = record s { idle_thread_count = s.idle_thread_count + 1 }

unfoldable pub leave_idle : Scheduler → Scheduler
leave_idle s = record s { idle_thread_count = decrement s.idle_thread_count }

unfoldable pub has_idle_threads : Scheduler → Bool
has_idle_threads s = ltb 0 s.idle_thread_count

-- `stop` up to the tickles: nothing to do once stopped, else the flag is set.
unfoldable pub request_stop : Scheduler → Scheduler
unfolding stopping
request_stop s = if stopping s then s else record s { stopping_flag = true }
