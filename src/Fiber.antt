-- ===== src/Fiber.antt =====
-- server/fiber.h and fiber.cc: the fibers of one thread and their three states. The switch of machine
-- contexts is the fiber that the operation switches to; `none` stands for a failed assertion or a
-- null pointer. The main fiber of the scheduler is an argument.
pub mod States
pub mod Examples
use zjh_server.Base.{
  ℕ, ◌+◌, ◌*◌, ◌==◌, if◌then◌else◌, Bool, true, false, ◌&&◌, ◌||◌, Option, none, some,
}
use zjh_server.Base.Words.{u32}
use zjh_server.Scheduler.{decrement}

pub data State : Type 0 where
  ready running term : State

pub record Fiber : Type 0 where
  pub state : State
  pub has_stack : Bool
  pub stack_size : ℕ
  pub cb : Option ℕ
  pub run_in_scheduler : Bool

-- The fiber objects at their ids, `t_fiber`, `t_thread_fiber`, and the two counters.
pub record Thread : Type 0 where
  pub fibers : ℕ → Fiber
  pub current : Option ℕ
  pub thread_fiber : Option ℕ
  pub next_id : ℕ
  pub fiber_count : ℕ

abbrev pub put_fiber : ℕ → Fiber → Thread → Thread
put_fiber f x t = record t { fibers = λ g. if g == f then x else t.fibers g }

abbrev pub is_term : State → Bool
is_term ready = false
is_term running = false
is_term term = true

abbrev pub is_running : State → Bool
is_running ready = false
is_running running = true
is_running term = false

abbrev pub is_none : Option ℕ → Bool
is_none none = true
is_none (some x) = false

-- `Fiber()`: the main fiber of a thread.
unfoldable pub new_main : Thread → Thread
new_main t =
    let x : Fiber = record {
      state = running;
      has_stack = false;
      stack_size = 0;
      cb = none;
      run_in_scheduler = false;
    } in
    record (put_fiber t.next_id x t) {
      current = some t.next_id;
      next_id = t.next_id + 1;
      fiber_count = t.fiber_count + 1;
    }

-- `GetThis`: the current fiber, after making the main fiber if there is none.
unfoldable pub get_this : Thread → Thread × Option ℕ
unfolding new_main
get_this t =
    let m = record (new_main t) { thread_fiber = some t.next_id } in
    elim t.current [ none ↦ (m, some t.next_id) | some f ↦ (t, some f) ]

-- `Fiber(cb, stacksize, run_in_scheduler)`, with a stack of 128 KB by default.
unfoldable pub new_fiber : Option ℕ → ℕ → Bool → Thread → Thread × ℕ
new_fiber cb stacksize in_scheduler t =
    let x : Fiber = record {
      state = ready;
      has_stack = true;
      stack_size = u32 (if stacksize == 0 then 128 * 1024 else stacksize);
      cb = cb;
      run_in_scheduler = in_scheduler;
    } in
    (
      record (put_fiber t.next_id x t) { next_id = t.next_id + 1; fiber_count = t.fiber_count + 1 },
      t.next_id,
    )

-- `~Fiber`: a fiber with a stack has ended; a main fiber has no callback and is running.
unfoldable pub destroy : ℕ → Thread → Option Thread
destroy f t =
    let x = t.fibers f in
    let counted = record t { fiber_count = decrement t.fiber_count } in
    let was_current : Bool = elim t.current [ none ↦ false | some g ↦ g == f ] in
    if x.has_stack
    then (if is_term x.state then some counted else none)
    else (if is_none x.cb && is_running x.state
        then some (if was_current then record counted { current = none } else counted)
        else none)

unfoldable pub reset_fiber : ℕ → Option ℕ → Thread → Option Thread
reset_fiber f cb t =
    let x = t.fibers f in
    if x.has_stack && is_term x.state
    then some (put_fiber f (record x { cb = cb; state = ready }) t)
    else none

-- The fiber whose context is swapped with that of `x`: the scheduler's main fiber or the thread's.
abbrev pub partner : Option ℕ → Fiber → Thread → Option ℕ
partner scheduler_main x t = if x.run_in_scheduler then scheduler_main else t.thread_fiber

abbrev pub with_partner : Option ℕ → Thread → Option (Thread × ℕ)
with_partner none t = none
with_partner (some p) t = some (t, p)

-- The thread afterwards, and the fiber whose context was left.
unfoldable pub resume : Option ℕ → ℕ → Thread → Option (Thread × ℕ)
resume scheduler_main f t =
    let x = t.fibers f in
    let t1 = put_fiber f (record x { state = running }) (record t { current = some f }) in
    if is_term x.state || is_running x.state
    then none
    else with_partner (partner scheduler_main x t) t1

-- The thread afterwards, and the fiber whose context is continued.
unfoldable pub yield : Option ℕ → ℕ → Thread → Option (Thread × ℕ)
yield scheduler_main f t =
    let x = t.fibers f in
    let next = if is_term x.state then term else ready in
    let t1 = put_fiber f (record x { state = next }) (record t { current = t.thread_fiber }) in
    if is_running x.state || is_term x.state
    then with_partner (partner scheduler_main x t) t1
    else none

-- The end of `MainFunc` of the current fiber, after its callback returned.
unfoldable pub end_main_func : Option ℕ → ℕ → Thread → Option (Thread × ℕ)
unfolding yield
end_main_func scheduler_main f t =
    yield scheduler_main f (put_fiber f (record (t.fibers f) { cb = none; state = term }) t)
