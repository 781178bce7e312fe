-- ===== src/Scheduler/Examples.antt =====
-- server/scheduler.cc: the theorems on a queue of three tasks, and on a run of one task.
use zjh_server.Base.{ℕ, ◌≡◌, refl, List, [], ◌∷◌, ◌==◌, true, false, Option, none, some}
use mathlib.Core.List.{Perm}
use zjh_server.Scheduler.{
  ScheduleTask, scan, schedule, take_task, finish_task, request_stop, stopping,
}
use zjh_server.Scheduler.Queue.{Scanned, scan-Scanned}
use zjh_server.Scheduler.Stopping.{
  World, Reach, here, then_step, submits, takes, finishes, stops, new_world, stopped_all_finished,
}

abbrev callback : ℕ → Option ℕ → ScheduleTask
callback f thr = record { fiber = none; cb = some f; thread = thr }

abbrev fiber_of : ℕ → ScheduleTask
fiber_of f = record { fiber = some f; cb = none; thread = none }

-- A task of thread 2, a fiber that still runs, and a callback for any thread.
abbrev three_tasks : List ScheduleTask
three_tasks = callback 1 (some 2) ∷ fiber_of 5 ∷ callback 3 none ∷ []

scan_example : Scanned 1 (λ f. f == 5) three_tasks (scan 1 (λ f. f == 5) three_tasks)
scan_example = scan-Scanned 1 (λ f. f == 5) three_tasks

-- One callback was submitted, taken and finished, and then a stop was asked for.
abbrev one_done : World
one_done = record {
  sched = record {
    tasks = [];
    thread_count = 1;
    active_thread_count = 0;
    idle_thread_count = 0;
    stopping_flag = true;
  };
  in_flight = [];
  finished = callback 3 none ∷ [];
  submitted = callback 3 none ∷ [];
}

one_done-Reach : Reach (new_world 1) one_done
unfolding schedule take_task finish_task request_stop stopping
one_done-Reach =
    then_step
      (then_step
        (then_step (then_step here (submits (callback 3 none) refl)) (takes 4 (λ f. false)))
        (finishes [] (callback 3 none) [] refl))
      stops

one_done-stopping : stopping one_done.sched ≡ true
unfolding stopping
one_done-stopping = refl

stopped_example :
    (one_done.sched.tasks ≡ [])
    × (one_done.in_flight ≡ [])
    × Perm one_done.submitted one_done.finished
stopped_example = stopped_all_finished 1 one_done one_done-Reach one_done-stopping
