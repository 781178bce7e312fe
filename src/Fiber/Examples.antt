-- ===== src/Fiber/Examples.antt =====
-- server/fiber.cc: the theorems on a thread with its main fiber and one other.
use zjh_server.Base.{ℕ, ◌≢◌, refl, arith, ◌==◌, if◌then◌else◌, true, false, Option, none, some}
use zjh_server.Fiber.{State, ready, running, term, Fiber, Thread, resume, end_main_func}
use zjh_server.Fiber.States.{Switched, resume_lem, end_main_func_lem}

abbrev child : State → Fiber
child s = record {
  state = s;
  has_stack = true;
  stack_size = 4096;
  cb = some 3;
  run_in_scheduler = false;
}

-- Fiber 1 with a given state; 0 is the main fiber.
abbrev two_fibers : State → Option ℕ → Thread
two_fibers s now = record {
  fibers = λ f. if f == 1 then child s else record {
    state = running;
    has_stack = false;
    stack_size = 0;
    cb = none;
    run_in_scheduler = false;
  };
  current = now;
  thread_fiber = some 0;
  next_id = 2;
  fiber_count = 2;
}

resume_example :
    Switched 1
      (child running)
      (some 1)
      0
      (two_fibers ready (some 0))
      (resume none 1 (two_fibers ready (some 0)))
resume_example = resume_lem none 1 0 (two_fibers ready (some 0)) refl refl

not_ready_now : running ≢ ready
not_ready_now e = ground arith

end_example :
    Switched 1
      (record (child term) { cb = none })
      (some 0)
      0
      (two_fibers running (some 1))
      (end_main_func none 1 (two_fibers running (some 1)))
end_example = end_main_func_lem none 1 0 (two_fibers running (some 1)) refl
