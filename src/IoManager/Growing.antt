-- ===== src/IoManager/Growing.antt =====
-- server/iomanager.cc: `contextResize`, and what every outcome of `addEvent` leaves.
use zjh_server.Base.{
  ℕ, zero, suc, ◌+◌, ◌-◌, ◌*◌, ◌/◌, ◌^◌, ◌<◌, ◌≤◌, ◌≡◌, ◌≢◌, refl, sym, ap, ◌∙◌, inl, inr, List, [],
  ◌∷◌, ◌++◌, arith, if◌then◌else◌, length, take, ltb, Bool, true, false, Option, none, some,
  Option-cases, get_elem?, lt→ltb, ltb→le,
}
use zjh_server.IoManager.{
  no_event, Event, Events, has, any, EventContext, FdContext, IoManager, new_contexts,
  context_resize, reset_event_context, ctl, CtlOp, ctl_mod, ctl_add, add, get_event_context,
}
use zjh_server.IoManager.Operations.{filled, register, is_unused, add_event}
use zjh_server.IoManager.Registered.{AllRegistered, total, IsValid}
use zjh_server.IoManager.Adding.{add_event_lem, get_elem?_bound}
use zjh_server.IoManager.Preserving.{either, cannot, returned, ctl-IsValid}

new_contexts_lem :
    (first n : ℕ) → AllRegistered (new_contexts first n) × (total (new_contexts first n) ≡ 0)
unfolding new_contexts reset_event_context
new_contexts_lem first zero = (tt, refl)
new_contexts_lem first (suc n) =
    let rest = new_contexts_lem (first + 1) n in
    ((record { for_reading = refl; for_writing = refl }, rest.0), omega (arith, rest.1))

-- Contexts with new ones behind them.
extended_lem :
    (first n : ℕ) (cs : List FdContext)
    → AllRegistered cs
    → AllRegistered (cs ++ new_contexts first n) × (total (cs ++ new_contexts first n) ≡ total cs)
extended_lem first n [] a = new_contexts_lem first n
extended_lem first n (c ∷ cs) a =
    let rest = extended_lem first n cs a.1 in ((a.0, rest.0), rw rest.1 refl)

take_all : (n : ℕ) (cs : List FdContext) → length cs ≤ n → take n cs ≡ cs
take_all zero [] h = refl
take_all (suc n) [] h = refl
take_all zero (c ∷ cs) h = absurd (omega (arith, h))
take_all (suc n) (c ∷ cs) h = ap (λ l. c ∷ l) (take_all n cs (omega arith))

pub context_resize_lem :
    (size : ℕ) (cs : List FdContext)
    → length cs ≤ size
    → AllRegistered cs
    → AllRegistered (context_resize size cs) × (total (context_resize size cs) ≡ total cs)
unfolding context_resize
context_resize_lem size cs h a =
    rw (take_all size cs h) (extended_lem (length cs) (size - length cs) cs a)

-- The contexts that `addEvent` looks up.
abbrev grown : ℕ → IoManager → IoManager
grown fd m = record m {
  contexts =
      if ltb fd (length m.contexts) then m.contexts else context_resize (fd * 3 / 2) m.contexts;
}

pub grown-IsValid : (fd : ℕ) (m : IoManager) → IsValid m → IsValid (grown fd m)
grown-IsValid fd m v = elim (either (ltb fd (length m.contexts))) [
  | inl h ↦ rw h v
  | inr h ↦
      let (a, t) =
        context_resize_lem (fd * 3 / 2) m.contexts (omega (arith, ltb→le fd (length m.contexts) h))
          v.each in
      rw h (record { each = a; counted = v.counted ∙ sym t })
]

abbrev add_op : Events → CtlOp
add_op es = if any es then ctl_mod else ctl_add

abbrev adding : Event → ℕ → FdContext → IoManager → IoManager
adding ev fd c m = ctl (add_op c.events) fd (add c.events ev) m

-- Without a callback and a running fiber `addEvent` fails an assertion.
register_nothing :
    (fd : ℕ) (ev : Event) (c : FdContext) (o : Option EventContext) (m : IoManager)
    → register fd ev c o none m ≡ none
register_nothing fd ev c none m = refl
register_nothing fd ev c (some old) m = elim (either (is_unused old)) [
  | inl h ↦ rw h refl
  | inr h ↦ rw h refl
]

-- `addEvent` only looks at the contexts once they have grown.
add_event-grown :
    (accepted : Bool) (s me fd : ℕ) (running : Bool) (ev : Event) (cb : Option ℕ) (m : IoManager)
    (c : FdContext)
    → get_elem? (grown fd m).contexts fd ≡ some c
    → add_event accepted (some s) me running fd ev cb (grown fd m)
      ≡ add_event accepted (some s) me running fd ev cb m
unfolding add_event
add_event-grown accepted s me fd running ev cb m c g =
    rw (lt→ltb fd (length (grown fd m).contexts) (get_elem?_bound (grown fd m).contexts fd c g))
      refl

pub add_event-IsValid :
    (accepted : Bool) (s me fd : ℕ) (running : Bool) (ev : Event) (cb : Option ℕ) (m : IoManager)
    (r : IoManager × Bool)
    → IsValid m
    → ev ≢ no_event
    → m.pending + 1 < 2 ^ 64
    → add_event accepted (some s) me running fd ev cb m ≡ some r
    → IsValid r.0
unfolding add_event
add_event-IsValid accepted s me fd running ev cb m r v n small e =
    let v1 = grown-IsValid fd m v in
    elim (Option-cases (get_elem? (grown fd m).contexts fd)) [
      | inl g ↦ cannot (rw g refl) e
      | inr (c, g) ↦ elim (either (has c.events ev)) [
        | inl b ↦ cannot (rw (g, b) refl) e
        | inr b ↦ elim (either accepted) [
          | inl a ↦ elim (Option-cases (filled (some s) cb me running)) [
            | inl f ↦
                cannot
                  (rw (g, b, a, f)
                    (register_nothing fd ev c (get_event_context ev c)
                      (adding ev fd c (grown fd m))))
                  e
            | inr (x, f) ↦
                let (m', t, w) =
                  add_event_lem ev fd s me running cb x c (grown fd m) v1 g n b f small in
                returned (m', true) r w.valid
                  (sym (add_event-grown true s me fd running ev cb m c g) ∙ t) (rw a at e)
          ]
          | inr a ↦
              returned (adding ev fd c (grown fd m), false) r
                (ctl-IsValid (add_op c.events) fd (add c.events ev) (grown fd m) v1)
                (rw (g, b, a) refl) e
        ]
      ]
    ]
