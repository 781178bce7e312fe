-- ===== src/IoManager/Preserving.antt =====
-- server/iomanager.cc: every operation that returns leaves the contexts, the registered events and the count in
-- agreement, whatever epoll answers.
use zjh_server.Base.{
  ℕ, ◌≡◌, refl, sym, ◌∙◌, inl, inr, ◌⊎◌, Bool, true, false, Option, none, some, Option-cases,
  get_elem?,
}
use mathlib.Core.Option.{some-injective, none-ne-some}
use mathlib.Core.Path.{subst}
use zjh_server.IoManager.{
  reading, writing, Event, Events, has, any, IoManager, trigger_event, ctl, CtlOp, remove,
  no_events, ctl_del,
}
use zjh_server.IoManager.Operations.{
  del_event, cancel_event, cancel_all, handle_ready, trigger_at, trigger_both, then_trigger,
  with_result, left_op, without, common, real_events,
}
use zjh_server.IoManager.Registered.{IsValid}
use zjh_server.IoManager.Cancelling.{trigger_at_lem, del_event_lem}

pub either : (b : Bool) → (b ≡ true) ⊎ (b ≡ false)
either true = inl refl
either false = inr refl

-- A call that cannot return leaves nothing to show.
pub cannot {ℓ ℓ'} : {A : Type ℓ} {B : Type ℓ'} {x : Option A} {y : A} → x ≡ none → x ≡ some y → B
cannot {y = y} n e = absurd (none-ne-some y (sym n ∙ e))

pub ctl-IsValid :
    (op : CtlOp) (fd : ℕ) (es : Events) (m : IoManager) → IsValid m → IsValid (ctl op fd es m)
ctl-IsValid op fd es m v = record { each = v.each; counted = v.counted }

pub trigger_at-IsValid :
    (ev : Event) (fd : ℕ) (m m' : IoManager) → IsValid m → trigger_at ev fd m ≡ some m' → IsValid m'
unfolding trigger_at trigger_event
trigger_at-IsValid ev fd m m' v e = elim (Option-cases (get_elem? m.contexts fd)) [
  | inl g ↦ cannot (rw g refl) e
  | inr (c, g) ↦ elim (either (has c.events ev)) [
    | inl b ↦
        let (a, t, x) = trigger_at_lem ev fd c m v g b in
        subst IsValid (some-injective a m' (sym t ∙ e)) x.valid
    | inr b ↦ cannot (rw (g, b) refl) e
  ]
]

pub then_trigger-IsValid :
    (wanted : Bool) (ev : Event) (fd : ℕ) (o : Option IoManager) (m' : IoManager)
    → ((m : IoManager) → o ≡ some m → IsValid m)
    → then_trigger wanted ev fd o ≡ some m'
    → IsValid m'
then_trigger-IsValid wanted ev fd none m' v e = cannot refl e
then_trigger-IsValid true ev fd (some m) m' v e = trigger_at-IsValid ev fd m m' (v m refl) e
then_trigger-IsValid false ev fd (some m) m' v e = v m' e

pub trigger_both-IsValid :
    (es : Events) (fd : ℕ) (m m' : IoManager)
    → IsValid m
    → trigger_both es fd m ≡ some m'
    → IsValid m'
unfolding trigger_both
trigger_both-IsValid es fd m m' v e =
    then_trigger-IsValid es.writable writing fd (then_trigger es.readable reading fd (some m)) m'
      (λ m1.
        then_trigger-IsValid es.readable reading fd (some m) m1
          (λ m2 h. subst IsValid (some-injective m m2 h) v))
      e

pub with_result-IsValid :
    (o : Option IoManager) (r : IoManager × Bool)
    → ((m : IoManager) → o ≡ some m → IsValid m)
    → with_result o ≡ some r
    → IsValid r.0
with_result-IsValid none r v e = cannot refl e
with_result-IsValid (some m) r v e =
    subst (λ (x : IoManager × Bool). IsValid x.0) (some-injective (m, true) r e) (v m refl)

-- What a call that returns a known result leaves.
pub returned :
    (r s : IoManager × Bool) {o : Option (IoManager × Bool)}
    → IsValid r.0
    → o ≡ some r
    → o ≡ some s
    → IsValid s.0
returned r s v a b =
    subst (λ (x : IoManager × Bool). IsValid x.0) (some-injective r s (sym a ∙ b)) v

pub cancel_event-IsValid :
    (accepted : Bool) (fd : ℕ) (ev : Event) (m : IoManager) (r : IoManager × Bool)
    → IsValid m
    → cancel_event accepted fd ev m ≡ some r
    → IsValid r.0
unfolding cancel_event
cancel_event-IsValid accepted fd ev m r v e = elim (Option-cases (get_elem? m.contexts fd)) [
  | inl g ↦ returned (m, false) r v (rw g refl) e
  | inr (c, g) ↦
      let left = remove c.events ev in
      let m1 = ctl (left_op left) fd left m in
      let v1 = ctl-IsValid (left_op left) fd left m v in
      elim (either (has c.events ev)) [
        | inl b ↦ elim (either accepted) [
          | inl a ↦
              with_result-IsValid (trigger_at ev fd m1) r (λ m2. trigger_at-IsValid ev fd m1 m2 v1)
                (rw (g, b, a) at e)
          | inr a ↦ returned (m1, false) r v1 (rw (g, b, a) refl) e
        ]
        | inr b ↦ returned (m, false) r v (rw (g, b) refl) e
      ]
]

pub cancel_all-IsValid :
    (accepted : Bool) (fd : ℕ) (m : IoManager) (r : IoManager × Bool)
    → IsValid m
    → cancel_all accepted fd m ≡ some r
    → IsValid r.0
unfolding cancel_all
cancel_all-IsValid accepted fd m r v e = elim (Option-cases (get_elem? m.contexts fd)) [
  | inl g ↦ returned (m, false) r v (rw g refl) e
  | inr (c, g) ↦
      let m1 = ctl ctl_del fd no_events m in
      let v1 = ctl-IsValid ctl_del fd no_events m v in
      elim (either (any c.events)) [
        | inl b ↦ elim (either accepted) [
          | inl a ↦
              with_result-IsValid (trigger_both c.events fd m1) r
                (λ m2. trigger_both-IsValid c.events fd m1 m2 v1) (rw (g, b, a) at e)
          | inr a ↦ returned (m1, false) r v1 (rw (g, b, a) refl) e
        ]
        | inr b ↦ returned (m, false) r v (rw (g, b) refl) e
      ]
]

pub del_event-IsValid :
    (accepted : Bool) (fd : ℕ) (ev : Event) (m : IoManager)
    → IsValid m
    → IsValid (del_event accepted fd ev m).0
unfolding del_event
del_event-IsValid accepted fd ev m v = elim (Option-cases (get_elem? m.contexts fd)) [
  | inl g ↦ rw g v
  | inr (c, g) ↦ elim (either (has c.events ev)) [
    | inl b ↦ elim (either accepted) [
      | inl a ↦ rw a (let (_, _, _, _, w) = del_event_lem ev fd c m v g b in w)
      | inr a ↦
          rw (g, b, a) (ctl-IsValid (left_op (remove c.events ev)) fd (remove c.events ev) m v)
    ]
    | inr b ↦ rw (g, b) v
  ]
]

pub handle_ready-IsValid :
    (accepted broken : Bool) (raised : Events) (fd : ℕ) (m m' : IoManager)
    → IsValid m
    → handle_ready accepted broken raised fd m ≡ some m'
    → IsValid m'
unfolding handle_ready
handle_ready-IsValid accepted broken raised fd m m' v e =
    elim (Option-cases (get_elem? m.contexts fd)) [
      | inl g ↦ cannot (rw g refl) e
      | inr (c, g) ↦
          let real = real_events broken raised c.events in
          let left = without c.events real in
          let m1 = ctl (left_op left) c.fd left m in
          let v1 = ctl-IsValid (left_op left) c.fd left m v in
          elim (either (any (common c.events real))) [
            | inl b ↦ elim (either accepted) [
              | inl a ↦ trigger_both-IsValid real fd m1 m' v1 (rw (g, b, a) at e)
              | inr a ↦ subst IsValid (some-injective m1 m' (rw (g, b, a) at e)) v1
            ]
            | inr b ↦ subst IsValid (some-injective m m' (rw (g, b) at e)) v
          ]
    ]
