-- ===== src/Scheduler/Stopping.antt =====
-- server/scheduler.cc: threads that submit, take and finish tasks in any order.
use mathlib.Core.List.{append_assoc, Perm, perm_middle}
use mathlib.Core.List.Perm
use mathlib.Core.Path.{subst}
use zjh_server.Base.{
  ◌<◌, ℕ, ◌≡◌, refl, sym, ap, ◌∙◌, inl, inr, List, [], ◌∷◌, ◌++◌, arith, ◌==◌, length,
  length-append, Bool, true, false, ◌&&◌, Option, none, some, Bool-cases, ==_iff,
}
use zjh_server.Scheduler.{
  ScheduleTask, Scheduler, is_task, is_empty, schedule, take_task, stopping, finish_task,
  request_stop,
}
use zjh_server.Scheduler.Queue.{decrement_lem, scan-Scanned, schedule_lem}

-- A scheduler with the tasks that its threads are running, those done, and all ever submitted.
pub record World : Type 0 where
  pub sched : Scheduler
  pub in_flight : List ScheduleTask
  pub finished : List ScheduleTask
  pub submitted : List ScheduleTask

abbrev took : Option ScheduleTask → List ScheduleTask → List ScheduleTask
took none ts = ts
took (some t) ts = t ∷ ts

-- Any thread may submit a task, take one, finish one that it runs, or ask for a stop.
pub data Step (w : World) : World → Type 0 where
  submits :
      (t : ScheduleTask)
      → is_task t ≡ true
      → Step w (record w { sched = (schedule t w.sched).0; submitted = t ∷ w.submitted })
  takes :
      (me : ℕ) (running : ℕ → Bool)
      → Step w (record w {
        sched = (take_task me running w.sched).0;
        in_flight = took (take_task me running w.sched).1 w.in_flight;
      })
  finishes :
      (front : List ScheduleTask) (t : ScheduleTask) (back : List ScheduleTask)
      → w.in_flight ≡ front ++ t ∷ back
      → Step w (record w {
        sched = finish_task w.sched;
        in_flight = front ++ back;
        finished = t ∷ w.finished;
      })
  stops : Step w (record w { sched = request_stop w.sched })

pub data Reach (w : World) : World → Type 0 where
  here : Reach w w
  then_step : {u v : World} → Reach w u → Step u v → Reach w v

pub record IsValid (w : World) : Type 0 where
  pub counted : w.sched.active_thread_count ≡ length w.in_flight
  pub kept : Perm w.submitted (w.sched.tasks ++ (w.in_flight ++ w.finished))

-- Moving one task from the middle of a list to the front of what follows.
perm_move :
    (front : List ScheduleTask) (t : ScheduleTask) (back rest : List ScheduleTask)
    → Perm ((front ++ t ∷ back) ++ rest) ((front ++ back) ++ t ∷ rest)
perm_move front t back rest =
    Perm.trans (Perm.append_right rest (perm_middle front back))
      (Perm.symm (perm_middle (front ++ back) rest))

-- A new task at the end of the queue, seen from the list of all submitted.
submits_kept :
    (t : ScheduleTask) (submitted tasks rest : List ScheduleTask)
    → Perm submitted (tasks ++ rest)
    → Perm (t ∷ submitted) ((tasks ++ t ∷ []) ++ rest)
submits_kept t submitted tasks rest p =
    subst (λ (l : List ScheduleTask). Perm (t ∷ submitted) l)
      (sym (append_assoc tasks (t ∷ []) rest))
      (Perm.trans (Perm.cons t p) (Perm.symm (perm_middle tasks rest)))

takes-IsValid :
    (me : ℕ) (running : ℕ → Bool) (w : World)
    → IsValid w
    → IsValid (record w {
      sched = (take_task me running w.sched).0;
      in_flight = took (take_task me running w.sched).1 w.in_flight;
    })
unfolding take_task
takes-IsValid me running w v = elim (scan-Scanned me running w.sched.tasks) [
  | inl (none_taken, same, q, p) ↦ record {
    counted = rw (take_task, none_taken) v.counted;
    kept = rw (take_task, none_taken, same) v.kept;
  }
  | inr (front, t, back, taken, tasks, rest, q, p, o) ↦ record {
    counted = rw (take_task, taken) (omega (arith, v.counted));
    kept =
        rw (take_task, taken, rest)
          (Perm.trans
            (subst (λ (l : List ScheduleTask). Perm w.submitted (l ++ (w.in_flight ++ w.finished)))
              tasks v.kept)
            (perm_move front t back (w.in_flight ++ w.finished)));
  }
]

Step-IsValid : {u v : World} → Step u v → IsValid u → IsValid v
unfolding finish_task request_stop
Step-IsValid {u} (submits t h) v =
    let l = schedule_lem t u.sched h in
    record {
      counted = l.2 ∙ v.counted;
      kept = rw l.0 (submits_kept t u.submitted u.sched.tasks (u.in_flight ++ u.finished) v.kept);
    }
Step-IsValid {u} (takes me running) v = takes-IsValid me running u v
Step-IsValid {u} (finishes front t back e) v = record {
  counted =
      let size = length-append front (t ∷ back) in
      let some_active : 0 < u.sched.active_thread_count =
        omega (arith, v.counted, ap length e, size) in
      decrement_lem u.sched.active_thread_count some_active
      ∙ omega (arith, v.counted, ap length e, size, length-append front back);
  kept =
      Perm.trans
        (subst (λ (l : List ScheduleTask). Perm u.submitted (u.sched.tasks ++ (l ++ u.finished))) e
          v.kept)
        (Perm.append_left u.sched.tasks (perm_move front t back u.finished));
}
Step-IsValid {u} stops v = elim (Bool-cases (stopping u.sched)) [
  | inl e ↦ rw e v
  | inr e ↦ rw e (record { counted = v.counted; kept = v.kept })
]

pub Reach-IsValid : {u v : World} → Reach u v → IsValid u → IsValid v
Reach-IsValid here v = v
Reach-IsValid (then_step r s) v = Step-IsValid s (Reach-IsValid r v)

-- A scheduler of `n` threads before anything was submitted.
abbrev pub new_world : ℕ → World
new_world n = record {
  sched = record {
    tasks = [];
    thread_count = n;
    active_thread_count = 0;
    idle_thread_count = 0;
    stopping_flag = false;
  };
  in_flight = [];
  finished = [];
  submitted = [];
}

new_world-IsValid : (n : ℕ) → IsValid (new_world n)
new_world-IsValid n = record { counted = refl; kept = Perm.refl [] }

no_tasks : (ts : List ScheduleTask) → is_empty ts ≡ true → ts ≡ []
no_tasks [] e = refl
no_tasks (t ∷ ts) e = ground arith

none_in_flight : (ts : List ScheduleTask) → length ts ≡ 0 → ts ≡ []
none_in_flight [] e = refl
none_in_flight (t ∷ ts) e = ground arith

and_true : (a b : Bool) → (a && b) ≡ true → (a ≡ true) × (b ≡ true)
and_true true b e = (refl, e)
and_true false b e = ground arith

stopping_parts : (s : Scheduler) → stopping s ≡ true → (s.tasks ≡ []) × (s.active_thread_count ≡ 0)
unfolding stopping
stopping_parts s e =
    let outer = and_true (s.stopping_flag && is_empty s.tasks) (s.active_thread_count == 0) e in
    let inner = and_true s.stopping_flag (is_empty s.tasks) outer.0 in
    (no_tasks s.tasks inner.1, (==_iff s.active_thread_count 0).0 outer.1)

-- From a new scheduler, whatever the threads submit, take, finish and stop, in whatever
-- order: where `stopping` answers true no task is queued or running, and the finished tasks
-- are exactly those submitted, each as often.
pub stopped_all_finished :
    (n : ℕ) (w : World)
    → Reach (new_world n) w
    → stopping w.sched ≡ true
    → (w.sched.tasks ≡ []) × (w.in_flight ≡ []) × Perm w.submitted w.finished
stopped_all_finished n w r e =
    let v = Reach-IsValid r (new_world-IsValid n) in
    let parts = stopping_parts w.sched e in
    let idle = none_in_flight w.in_flight (sym v.counted ∙ parts.1) in
    (
      parts.0,
      idle,
      subst (λ (l : List ScheduleTask). Perm w.submitted (l ++ w.finished)) idle
          (subst (λ (l : List ScheduleTask). Perm w.submitted (l ++ (w.in_flight ++ w.finished)))
            parts.0 v.kept),
    )
