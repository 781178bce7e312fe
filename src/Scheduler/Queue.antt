-- ===== src/Scheduler/Queue.antt =====
-- server/scheduler.cc: the scan takes the first task that this thread may run.
use zjh_server.Base.{
  ℕ, ◌<◌, ◌-◌, pos→==, ◌≡◌, refl, ap, ◌⊎◌, inl, inr, List, [], ◌∷◌, ◌++◌, Bool, true, false, not,
  ◌||◌, none, some, Bool-cases,
}
use zjh_server.Scheduler.{
  decrement, ScheduleTask, Scheduler, Scan, is_task, is_empty, elsewhere, busy, schedule, scan,
}

-- Tasks that the scan passes.
abbrev pub AllPassed : ℕ → (ℕ → Bool) → List ScheduleTask → Type 0
AllPassed me running [] = Unit {0}
AllPassed me running (t ∷ ts) =
    ((elsewhere me t.thread || busy running t.fiber) ≡ true) × AllPassed me running ts

abbrev pub any_elsewhere : ℕ → List ScheduleTask → Bool
any_elsewhere me [] = false
any_elsewhere me (t ∷ ts) = elsewhere me t.thread || any_elsewhere me ts

-- What a scan of a queue promises.
abbrev pub Scanned : ℕ → (ℕ → Bool) → List ScheduleTask → Scan → Type 0
Scanned me running tasks r =
    ((r.taken ≡ none)
      × (r.rest ≡ tasks)
      × AllPassed me running tasks
      × (r.tickle_me ≡ any_elsewhere me tasks))
    ⊎ ((front : List ScheduleTask) × (t : ScheduleTask) × (back : List ScheduleTask) × (r.taken
          ≡ some t)
        × (tasks ≡ front ++ t ∷ back)
        × (r.rest ≡ front ++ back)
        × AllPassed me running front
        × ((elsewhere me t.thread || busy running t.fiber) ≡ false)
        × (r.tickle_me ≡ (any_elsewhere me front || not (is_empty back))))

-- The scan takes the first task that is neither bound to another thread nor a running fiber,
-- keeps the others in order, and says to tickle exactly if it passed a task of another thread
-- or left tasks behind the one taken; if it takes none, all tasks are ones to pass.
pub scan-Scanned :
    (me : ℕ) (running : ℕ → Bool) (tasks : List ScheduleTask)
    → Scanned me running tasks (scan me running tasks)
unfolding scan
scan-Scanned me running [] = inl (refl, refl, tt, refl)
scan-Scanned me running (t ∷ ts) = elim (Bool-cases (elsewhere me t.thread)) [
  | inl e ↦ elim (scan-Scanned me running ts) [
    | inl (a, b, c, d) ↦ rw e (inl (a, ap (λ x. t ∷ x) b, (refl, c), refl))
    | inr (front, u, back, a, b, c, d, f, g) ↦ rw e (
        inr (
          t ∷ front,
          u,
          back,
          a,
          ap (λ x. t ∷ x) b,
          ap (λ x. t ∷ x) c,
          (rw e refl, d),
          f,
          rw e refl,
        ))
  ]
  | inr e ↦ elim (Bool-cases (busy running t.fiber)) [
    | inl b ↦ elim (scan-Scanned me running ts) [
      | inl (p, q, c, d) ↦ rw (e, b) (inl (p, ap (λ x. t ∷ x) q, (refl, c), d))
      | inr (front, u, back, p, q, c, d, f, g) ↦
          rw (e, b)
            (inr (
              t ∷ front,
              u,
              back,
              p,
              ap (λ x. t ∷ x) q,
              ap (λ x. t ∷ x) c,
              (rw (e, b) refl, d),
              f,
              rw e g,
            ))
    ]
    | inr b ↦ rw (e, b) (inr ([], t, ts, refl, refl, refl, tt, rw (e, b) refl, refl))
  ]
]

-- `schedule` puts a task with a fiber or a callback at the end, and tickles if the queue was empty.
pub schedule_lem :
    (t : ScheduleTask) (s : Scheduler)
    → is_task t ≡ true
    → ((schedule t s).0.tasks ≡ s.tasks ++ t ∷ [])
      × ((schedule t s).1 ≡ is_empty s.tasks)
      × ((schedule t s).0.active_thread_count ≡ s.active_thread_count)
unfolding schedule
schedule_lem t s h = rw h (refl, refl, refl)

pub decrement_lem : (n : ℕ) → 0 < n → decrement n ≡ n - 1
decrement_lem n h = rw (pos→== n h) refl
