-- ===== src/Fiber/States.antt =====
-- server/fiber.cc: the life of a fiber.
use zjh_server.Base.{
  ℕ, ◌≡◌, ◌≢◌, refl, ◌∙◌, arith, ◌==◌, if◌then◌else◌, true, false, ◌||◌, Option, none, some, ==_iff,
}
use zjh_server.Fiber.{
  State, ready, running, term, Fiber, Thread, put_fiber, is_term, is_running, partner, resume,
  yield, end_main_func,
}

-- What a switch between a fiber `f` and its partner does: the fiber afterwards, the current one, and nothing else.
pub record Switched (f : ℕ) (x : Fiber) (now : Option ℕ) (p : ℕ) (t : Thread)
    (r : Option (Thread × ℕ)) : Type 0 where
  pub after : Thread
  pub returns : r ≡ some (after, p)
  pub fiber : after.fibers f ≡ x
  pub others : (g : ℕ) → (g == f) ≡ false → after.fibers g ≡ t.fibers g
  pub current : after.current ≡ now
  pub same_thread_fiber : after.thread_fiber ≡ t.thread_fiber

same_id : (f : ℕ) → (f == f) ≡ true
same_id f = (==_iff f f).1 refl

-- Resuming a ready fiber whose partner exists makes it the running and current fiber and changes no other.
pub resume_lem :
    (main : Option ℕ) (f p : ℕ) (t : Thread)
    → (t.fibers f).state ≡ ready
    → partner main (t.fibers f) t ≡ some p
    → Switched f (record (t.fibers f) { state = running }) (some f) p t (resume main f t)
unfolding resume
resume_lem main f p t s e = record {
  after = put_fiber f (record (t.fibers f) { state = running }) (record t { current = some f });
  returns = rw (s, e) refl;
  fiber = rw (same_id f) refl;
  others = λ g n. rw n refl;
  current = refl;
  same_thread_fiber = refl;
}

not_ready : (s : State) → s ≢ ready → (is_running s || is_term s) ≡ true
not_ready ready n = absurd (n refl)
not_ready running n = refl
not_ready term n = refl

term_not_ready : (s : State) → s ≡ term → s ≢ ready
term_not_ready ready e q = ground arith
term_not_ready running e q = ground arith
term_not_ready term e q = ground arith

-- A fiber that is not ready and yields, with a context to switch to, becomes ready, or stays
-- ended; the thread's main fiber is then the current one, and no other fiber changes.
pub yield_lem :
    (main : Option ℕ) (f p : ℕ) (t : Thread)
    → (t.fibers f).state ≢ ready
    → partner main (t.fibers f) t ≡ some p
    → Switched f
        (record (t.fibers f) { state = if is_term (t.fibers f).state then term else ready })
        t.thread_fiber
        p
        t
        (yield main f t)
unfolding yield
yield_lem main f p t s e = record {
  after =
      put_fiber f
        (record (t.fibers f) { state = if is_term (t.fibers f).state then term else ready })
        (record t { current = t.thread_fiber });
  returns = rw (not_ready (t.fibers f).state s, e) refl;
  fiber = rw (same_id f) refl;
  others = λ g n. rw n refl;
  current = refl;
  same_thread_fiber = refl;
}

-- When the callback of a fiber has returned, with a context to switch to, the fiber has ended
-- and has no callback, the thread's main fiber is current, and no other fiber changes.
pub end_main_func_lem :
    (main : Option ℕ) (f p : ℕ) (t : Thread)
    → partner main (t.fibers f) t ≡ some p
    → Switched f
        (record (t.fibers f) { state = term; cb = none })
        t.thread_fiber
        p
        t
        (end_main_func main f t)
unfolding end_main_func
end_main_func_lem main f p t e =
    let t1 = put_fiber f (record (t.fibers f) { cb = none; state = term }) t in
    let ended : (t1.fibers f).state ≡ term = rw (same_id f) refl in
    let y = yield_lem main f p t1 (term_not_ready (t1.fibers f).state ended) (rw (same_id f) e) in
    record {
      after = y.after;
      returns = y.returns;
      fiber = y.fiber ∙ rw (same_id f) refl;
      others = λ g n. y.others g n ∙ rw n refl;
      current = y.current;
      same_thread_fiber = y.same_thread_fiber;
    }
