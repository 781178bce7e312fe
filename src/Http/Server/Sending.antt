-- ===== src/Http/Server/Sending.antt =====
-- server/http/http_session.cc: what the stream has taken once `sendResponse` is over.
use zjh_server.Base.{
  ℕ, zero, suc, ◌≤◌, ◌<◌, ◌≡◌, refl, sym, ap, ◌∙◌, inl, inr, ◌⊎◌, List, [], ◌∷◌, ◌++◌, arith, ◌==◌,
  Bool, true, length, take, drop, length-drop, take-append-drop, Bool-cases,
}
use mathlib.Core.List.{append_assoc, append-nil}
use zjh_server.Stream.{
  Sent, sent, refused, Outcome, whole, broken, out_of_fuel, after_send, write_fix_loop,
  write_fix_size,
}
use zjh_server.Http.Response.{HttpResponse}
use zjh_server.Http.Dump.{dump_response}
use zjh_server.Http.Session.{send_response}
use zjh_server.Http.Server.{stream_after}

-- A call of `write` that ends `writeFixSize`.
abbrev pub took_none : Sent → Bool
took_none (sent n) = n == 0
took_none (refused n) = true

none_taken : (n : ℕ) → (n == 0) ≡ true → n ≡ 0
none_taken n q = ground (arith, q)

module _ {S : Type 0} (write : S → List ℕ → S × Sent) (out : S → List ℕ) where
  -- What a call of `write` does to all that the stream has taken, `out`.
  abbrev pub Takes : S → List ℕ → S × Sent → Type 0
  Takes s bs (t, sent n) = out t ≡ out s ++ take n bs
  Takes s bs (t, refused n) = out t ≡ out s

  -- The stream `t` comes from a call of `write` with what is left of `text` behind `done`, that took nothing.
  abbrev pub Failed : List ℕ → List ℕ → S → Type 0
  Failed text done t =
      (left : List ℕ) × (u : S) × (done ++ left ≡ text)
      × (0 < length left)
      × (took_none (write u left).1 ≡ true)
      × ((write u left).0 ≡ t)

  -- Sending `text` from `s` on: the stream takes `done`, all of it or what came before a failed call.
  abbrev pub Sends : List ℕ → S → List ℕ → S → Type 0
  Sends text s done t = (out t ≡ out s ++ done) × ((done ≡ text) ⊎ Failed text done t)

  OutcomeSends : List ℕ → S → Outcome S → Type 0
  OutcomeSends text s (whole t done) = Sends text s done t
  OutcomeSends text s (broken t done n) = Sends text s done t
  OutcomeSends text s out_of_fuel = ⊥

  module _ (text : List ℕ) (start : S) where
    after_send-Sends :
        (left : List ℕ) (s : S) (done : List ℕ) (r : S × Sent) (rest : List ℕ → List ℕ → Outcome S)
        → write s left ≡ r
        → 0 < length left
        → done ++ left ≡ text
        → out s ≡ out start ++ done
        → Takes s left r
        → ((l d : List ℕ)
            → length l < length left
            → d ++ l ≡ text
            → out r.0 ≡ out start ++ d
            → OutcomeSends text start (rest l d))
        → OutcomeSends text start (after_send left r.0 done r.1 rest)
    unfolding OutcomeSends
    after_send-Sends left s done (t, refused n) rest w p e o k h =
        (k ∙ o, inr (left, s, e, p, rw w refl, rw w refl))
    after_send-Sends left s done (t, sent n) rest w p e o k h = elim (Bool-cases (n == 0)) [
      | inl q ↦ rw q (
        k ∙ ap (λ i. out s ++ take i left) (none_taken n q) ∙ append-nil (out s) ∙ o,
        inr (left, s, e, p, rw w q, rw w refl),
      )
      | inr q ↦ rw q (
          h (drop n left) (done ++ take n left) (ground (arith, length-drop n left))
            (append_assoc done (take n left) (drop n left)
              ∙ ap (λ l. done ++ l) (take-append-drop n left)
              ∙ e)
            (k ∙ ap (λ l. l ++ take n left) o ∙ append_assoc (out start) done (take n left)))
    ]

    write_fix_loop-Sends :
        ((s : S) (bs : List ℕ) → Takes s bs (write s bs))
        → (fuel : ℕ) (left : List ℕ) (s : S) (done : List ℕ) → length left ≤ fuel
        → done ++ left ≡ text
        → out s ≡ out start ++ done
        → OutcomeSends text start (write_fix_loop write fuel left s done)
    unfolding write_fix_loop OutcomeSends
    write_fix_loop-Sends takes fuel [] s done h e o = (o, inl (sym (append-nil done) ∙ e))
    write_fix_loop-Sends takes zero (b ∷ left) s done h e o = absurd (omega arith)
    write_fix_loop-Sends takes (suc fuel) (b ∷ left) s done h e o =
        let r = write s (b ∷ left) in
        after_send-Sends (b ∷ left) s done r (λ l d. write_fix_loop write fuel l r.0 d) refl
          (omega arith) e o (takes s (b ∷ left))
          (λ l d small f g. write_fix_loop-Sends takes fuel l r.0 d (omega (arith, small)) f g)

  outcome-Sends :
      (text : List ℕ) (s : S) (o : Outcome S)
      → OutcomeSends text s o
      → (done : List ℕ) × Sends text s done (stream_after s o)
  unfolding stream_after OutcomeSends
  outcome-Sends text s (whole t done) h = (done, h)
  outcome-Sends text s (broken t done n) h = (done, h)
  outcome-Sends text s out_of_fuel h = absurd h

  pub send_response-Sends :
      ((s : S) (bs : List ℕ) → Takes s bs (write s bs))
      → (rsp : HttpResponse) (s : S)
      → (done : List ℕ) × Sends
          (dump_response rsp)
          s
          done
          (stream_after s (send_response write rsp s))
  unfolding send_response write_fix_size
  send_response-Sends takes rsp s =
      let text = dump_response rsp in
      outcome-Sends text s (write_fix_loop write (length text) text s []) (
        write_fix_loop-Sends text s takes (length text) text s [] (omega arith) refl
          (sym (append-nil (out s))))
