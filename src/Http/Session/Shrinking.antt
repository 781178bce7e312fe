-- ===== src/Http/Session/Shrinking.antt =====
-- server/http/http_session.cc: receiving a request leaves less of the stream.
use zjh_server.Base.{
  ℕ, zero, suc, ◌-◌, ◌≤◌, ◌<◌, ◌≡◌, refl, inl, inr, List, [], ◌∷◌, ◌++◌, ◌==◌, leb, true, Option,
  arith, length, take, drop, Bool-cases,
}
use zjh_server.Base.Text.{Text}
use zjh_server.Stream.{
  Transfer, moved, failed, Outcome, whole, broken, out_of_fuel, after_call, no_bytes, read_fix_loop,
  read_fix_size, after_send, Sent, sent, refused, write_fix_loop,
}
use zjh_server.Http.Request.{HttpRequest}
use zjh_server.Http.Parser.{
  Machine, HttpRequestParser, new_parser, execute, is_finished, has_error, get_content_length,
}
use zjh_server.Http.Session.{
  Head, head_read, head_closed, head_unfinished, Received, received, no_request, unfinished,
  buffer_size, signed_length, after_execute, after_read, recv_head, positive_int, with_body,
  recv_body, recv_rest, recv_request,
}
use zjh_server.Http.Session.Receiving.{has_bytes}

module _ {S : Type 0} (left : S → ℕ) (read : S → ℕ → S × Transfer) where
  -- The stream of an outcome has no more than `n` left.
  abbrev pub AtMost : ℕ → Outcome S → Type 0
  AtMost n (whole s bytes) = left s ≤ n
  AtMost n (broken s bytes m) = left s ≤ n
  AtMost n out_of_fuel = true ≡ true

  abbrev pub HeadBelow : {G : Type 0} → ℕ → Head S G → Type 0
  HeadBelow n (head_read s p l) = left s < n
  HeadBelow n (head_closed s) = true ≡ true
  HeadBelow n head_unfinished = true ≡ true

  abbrev pub Below : ℕ → Received S → Type 0
  Below n (received s r) = left s < n
  Below n (no_request s) = true ≡ true
  Below n unfinished = true ≡ true

  after_call-AtMost :
      (k n : ℕ) (s : S) (done : List ℕ) (t : Transfer) (rest : ℕ → List ℕ → Outcome S)
      → left s ≤ n
      → ((l : ℕ) (d : List ℕ) → AtMost n (rest l d))
      → AtMost n (after_call k s done t rest)
  after_call-AtMost k n s done (failed m) rest h f = h
  after_call-AtMost k n s done (moved bytes) rest h f = elim (Bool-cases (no_bytes bytes)) [
    | inl e ↦ rw e h
    | inr e ↦ rw e (f (k - length bytes) (done ++ bytes))
  ]

  read_fix_loop-AtMost :
      ((s : S) (n : ℕ) → left (read s n).0 ≤ left s)
      → (fuel k n : ℕ) (s : S) (done : List ℕ) → left s ≤ n
      → AtMost n (read_fix_loop read fuel k s done)
  unfolding read_fix_loop
  read_fix_loop-AtMost quiet fuel zero n s done h = h
  read_fix_loop-AtMost quiet zero (suc k) n s done h = refl
  read_fix_loop-AtMost quiet (suc fuel) (suc k) n s done h =
      let small : left (read s (suc k)).0 ≤ n = omega (arith, quiet s (suc k), h) in
      after_call-AtMost (suc k) n (read s (suc k)).0 done (read s (suc k)).1
        (λ l d. read_fix_loop read fuel l (read s (suc k)).0 d) small
        (λ l d. read_fix_loop-AtMost quiet fuel l n (read s (suc k)).0 d small)

  after_send-AtMost :
      (bs : List ℕ) (n : ℕ) (s : S) (done : List ℕ) (t : Sent) (rest : List ℕ → List ℕ → Outcome S)
      → left s ≤ n
      → ((l : List ℕ) (d : List ℕ) → AtMost n (rest l d))
      → AtMost n (after_send bs s done t rest)
  after_send-AtMost bs n s done (refused m) rest h f = h
  after_send-AtMost bs n s done (sent m) rest h f = elim (Bool-cases (m == 0)) [
    | inl e ↦ rw e h
    | inr e ↦ rw e (f (drop m bs) (done ++ take m bs))
  ]

  pub write_fix_loop-AtMost :
      (write : S → List ℕ → S × Sent)
      → ((s : S) (bs : List ℕ) → left (write s bs).0 ≤ left s)
      → (fuel : ℕ) (bs : List ℕ) (n : ℕ) (s : S) (done : List ℕ) → left s ≤ n
      → AtMost n (write_fix_loop write fuel bs s done)
  unfolding write_fix_loop
  write_fix_loop-AtMost write quiet fuel [] n s done h = h
  write_fix_loop-AtMost write quiet zero (b ∷ bs) n s done h = refl
  write_fix_loop-AtMost write quiet (suc fuel) (b ∷ bs) n s done h =
      let r = write s (b ∷ bs) in
      let small : left (write s (b ∷ bs)).0 ≤ n = omega (arith, quiet s (b ∷ bs), h) in
      after_send-AtMost (b ∷ bs) n r.0 done r.1 (λ l d. write_fix_loop write fuel l r.0 d) small
        (λ l d. write_fix_loop-AtMost write quiet fuel l n r.0 d small)

  module _ {G : Type 0} (machine : Machine G) (to_u64 : Text → Option ℕ) (close : S → S) where
    after_execute-Below :
        (n : ℕ) (s : S) (e : HttpRequestParser G × Text) (rest : Head S G)
        → left s < n
        → HeadBelow n rest
        → HeadBelow n (after_execute machine to_u64 read close s e rest)
    unfolding after_execute
    after_execute-Below n s (p, l) rest h k = elim (Bool-cases (has_error machine p)) [
      | inl a ↦ rw a refl
      | inr a ↦ elim (Bool-cases (length l == buffer_size)) [
        | inl b ↦ rw (a, b) refl
        | inr b ↦ elim (Bool-cases (is_finished machine p)) [
          | inl c ↦ rw (a, b, c) h
          | inr c ↦ rw (a, b, c) k
        ]
      ]
    ]

    after_read-Below :
        (n : ℕ) (s : S) (p : HttpRequestParser G) (pending : Text) (t : Transfer)
        (next : HttpRequestParser G → Text → Head S G)
        → (has_bytes t ≡ true → left s < n)
        → ((q : HttpRequestParser G) (l : Text) → has_bytes t ≡ true → HeadBelow n (next q l))
        → HeadBelow n (after_read machine to_u64 read close s p pending t next)
    unfolding after_read
    after_read-Below n s p pending (failed m) next h k = refl
    after_read-Below n s p pending (moved []) next h k = refl
    after_read-Below n s p pending (moved (b ∷ bs)) next h k =
        let e = execute machine p (pending ++ (b ∷ bs)) in
        after_execute-Below n s e (next e.0 e.1) (h refl) (k e.0 e.1 refl)

    recv_head-Below :
        ((s : S) (n : ℕ) → has_bytes (read s n).1 ≡ true → left (read s n).0 < left s)
        → (n fuel : ℕ) (s : S) (p : HttpRequestParser G) (pending : Text) → left s ≤ n
        → HeadBelow n (recv_head machine to_u64 read close fuel s p pending)
    unfolding recv_head
    recv_head-Below progress n zero s p pending h = refl
    recv_head-Below progress n (suc fuel) s p pending h =
        let k = buffer_size - length pending in
        after_read-Below n (read s k).0 p pending (read s k).1
          (λ q rest. recv_head machine to_u64 read close fuel (read s k).0 q rest)
          (λ t. omega (arith, progress s k t, h))
          (λ q rest t.
            recv_head-Below progress n fuel (read s k).0 q rest (omega (arith, progress s k t, h)))

    with_body-Below :
        (n m : ℕ) (r : HttpRequest) (start : Text) (asked : ℕ) (o : Outcome S)
        → m < n
        → AtMost m o
        → Below n (with_body machine to_u64 read close r start asked o)
    unfolding with_body
    with_body-Below n m r start asked (whole s bytes) h e = elim (Bool-cases (positive_int asked)) [
      | inl p ↦ rw p (omega (arith, h, e))
      | inr p ↦ rw p refl
    ]
    with_body-Below n m r start asked (broken s bytes k) h e = refl
    with_body-Below n m r start asked out_of_fuel h e = refl

    recv_body-Below :
        ((s : S) (n : ℕ) → left (read s n).0 ≤ left s)
        → (n k : ℕ) (s : S) (r : HttpRequest) (pending : Text) → left s < n
        → Below n (recv_body machine to_u64 read close s r pending k)
    unfolding recv_body read_fix_size
    recv_body-Below quiet n zero s r pending h = h
    recv_body-Below quiet n (suc k) s r pending h =
        elim (Bool-cases (leb (suc k) (length pending))) [
          | inl l ↦ rw l h
          | inr l ↦
              let m = suc k - length pending in
              rw l (
                with_body-Below n (left s) r pending m (read_fix_loop read m m s []) h
                  (read_fix_loop-AtMost quiet m m (left s) s [] (omega arith)))
        ]

    recv_rest-Below :
        ((s : S) (n : ℕ) → left (read s n).0 ≤ left s)
        → (n : ℕ) (h : Head S G) → HeadBelow n h
        → Below n (recv_rest machine to_u64 read close h)
    unfolding recv_rest
    recv_rest-Below quiet n (head_read s p pending) h =
        recv_body-Below quiet n (signed_length (get_content_length machine to_u64 p)) s p.message
          pending h
    recv_rest-Below quiet n (head_closed s) h = refl
    recv_rest-Below quiet n head_unfinished h = refl

    pub recv_request-Below :
        ((s : S) (n : ℕ) → has_bytes (read s n).1 ≡ true → left (read s n).0 < left s)
        → ((s : S) (n : ℕ) → left (read s n).0 ≤ left s)
        → (fuel status : ℕ) (s : S)
        → Below (left s) (recv_request machine to_u64 read close fuel status s)
    unfolding recv_request
    recv_request-Below progress quiet fuel status s =
        recv_rest-Below quiet (left s)
          (recv_head machine to_u64 read close fuel s (new_parser machine status) [])
          (recv_head-Below progress (left s) fuel s (new_parser machine status) [] (omega arith))
