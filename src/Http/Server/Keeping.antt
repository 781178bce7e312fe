-- ===== src/Http/Server/Keeping.antt =====
-- server/http/http_session.cc: what reading and closing leave alone, receiving a request leaves alone.
use zjh_server.Base.{
  ℕ, zero, suc, ◌-◌, ◌≡◌, ◌∙◌, inl, inr, List, [], ◌∷◌, ◌++◌, ◌==◌, leb, Option, length, Bool-cases,
}
use zjh_server.Base.Text.{Text}
use zjh_server.Stream.{
  Transfer, moved, failed, Outcome, whole, broken, out_of_fuel, after_call, no_bytes, read_fix_loop,
  read_fix_size,
}
use zjh_server.Http.Request.{HttpRequest}
use zjh_server.Http.Parser.{
  Machine, HttpRequestParser, new_parser, execute, is_finished, has_error, get_content_length,
}
use zjh_server.Http.Session.{
  Head, head_read, head_closed, head_unfinished, Received, received, no_request, unfinished,
  buffer_size, signed_length, after_execute, after_read, recv_head, positive_int, with_body,
  recv_body, recv_rest, recv_request,
}

module _ {S : Type 0} (out : S → List ℕ) (base : List ℕ) where
  OutcomeKeeps : Outcome S → Type 0
  OutcomeKeeps (whole s bytes) = out s ≡ base
  OutcomeKeeps (broken s bytes n) = out s ≡ base
  OutcomeKeeps out_of_fuel = Unit {0}

  HeadKeeps : {G : Type 0} → Head S G → Type 0
  HeadKeeps (head_read s p l) = out s ≡ base
  HeadKeeps (head_closed s) = out s ≡ base
  HeadKeeps head_unfinished = Unit {0}

  abbrev pub Keeps : Received S → Type 0
  Keeps (received s r) = out s ≡ base
  Keeps (no_request s) = out s ≡ base
  Keeps unfinished = Unit {0}

module _ {S : Type 0} (read : S → ℕ → S × Transfer) (close : S → S) (out : S → List ℕ)
    (reads : (s : S) (n : ℕ) → out (read s n).0 ≡ out s) (closes : (s : S) → out (close s) ≡ out s)
    (base : List ℕ) where
  after_call-Keeps :
      (k : ℕ) (s : S) (done : List ℕ) (t : Transfer) (rest : ℕ → List ℕ → Outcome S)
      → out s ≡ base
      → ((l : ℕ) (d : List ℕ) → OutcomeKeeps out base (rest l d))
      → OutcomeKeeps out base (after_call k s done t rest)
  unfolding OutcomeKeeps
  after_call-Keeps k s done (failed m) rest h f = h
  after_call-Keeps k s done (moved bytes) rest h f = elim (Bool-cases (no_bytes bytes)) [
    | inl e ↦ rw e h
    | inr e ↦ rw e (f (k - length bytes) (done ++ bytes))
  ]

  read_fix_loop-Keeps :
      (fuel k : ℕ) (s : S) (done : List ℕ)
      → out s ≡ base
      → OutcomeKeeps out base (read_fix_loop read fuel k s done)
  unfolding read_fix_loop OutcomeKeeps
  read_fix_loop-Keeps fuel zero s done h = h
  read_fix_loop-Keeps zero (suc k) s done h = tt
  read_fix_loop-Keeps (suc fuel) (suc k) s done h =
      let r = read s (suc k) in
      let kept = reads s (suc k) ∙ h in
      after_call-Keeps (suc k) r.0 done r.1 (λ l d. read_fix_loop read fuel l r.0 d) kept
        (λ l d. read_fix_loop-Keeps fuel l r.0 d kept)

  module _ {G : Type 0} (machine : Machine G) (to_u64 : Text → Option ℕ) where
    after_execute-Keeps :
        (s : S) (e : HttpRequestParser G × Text) (rest : Head S G)
        → out s ≡ base
        → HeadKeeps out base rest
        → HeadKeeps out base (after_execute machine to_u64 read close s e rest)
    unfolding after_execute HeadKeeps
    after_execute-Keeps s (p, l) rest h k = elim (Bool-cases (has_error machine p)) [
      | inl a ↦ rw a (closes s ∙ h)
      | inr a ↦ elim (Bool-cases (length l == buffer_size)) [
        | inl b ↦ rw (a, b) (closes s ∙ h)
        | inr b ↦ elim (Bool-cases (is_finished machine p)) [
          | inl c ↦ rw (a, b, c) h
          | inr c ↦ rw (a, b, c) k
        ]
      ]
    ]

    after_read-Keeps :
        (s : S) (p : HttpRequestParser G) (pending : Text) (t : Transfer)
        (next : HttpRequestParser G → Text → Head S G)
        → out s ≡ base
        → ((q : HttpRequestParser G) (l : Text) → HeadKeeps out base (next q l))
        → HeadKeeps out base (after_read machine to_u64 read close s p pending t next)
    unfolding after_read HeadKeeps
    after_read-Keeps s p pending (failed m) next h k = closes s ∙ h
    after_read-Keeps s p pending (moved []) next h k = closes s ∙ h
    after_read-Keeps s p pending (moved (b ∷ bs)) next h k =
        let e = execute machine p (pending ++ (b ∷ bs)) in
        after_execute-Keeps s e (next e.0 e.1) h (k e.0 e.1)

    recv_head-Keeps :
        (fuel : ℕ) (s : S) (p : HttpRequestParser G) (pending : Text)
        → out s ≡ base
        → HeadKeeps out base (recv_head machine to_u64 read close fuel s p pending)
    unfolding recv_head HeadKeeps
    recv_head-Keeps zero s p pending h = tt
    recv_head-Keeps (suc fuel) s p pending h =
        let k = buffer_size - length pending in
        let kept = reads s k ∙ h in
        after_read-Keeps (read s k).0 p pending (read s k).1
          (λ q rest. recv_head machine to_u64 read close fuel (read s k).0 q rest) kept
          (λ q rest. recv_head-Keeps fuel (read s k).0 q rest kept)

    with_body-Keeps :
        (r : HttpRequest) (start : Text) (asked : ℕ) (o : Outcome S)
        → OutcomeKeeps out base o
        → Keeps out base (with_body machine to_u64 read close r start asked o)
    unfolding with_body OutcomeKeeps
    with_body-Keeps r start asked (whole s bytes) h = elim (Bool-cases (positive_int asked)) [
      | inl p ↦ rw p h
      | inr p ↦ rw p (closes s ∙ h)
    ]
    with_body-Keeps r start asked (broken s bytes k) h = closes s ∙ h
    with_body-Keeps r start asked out_of_fuel h = tt

    recv_body-Keeps :
        (s : S) (r : HttpRequest) (pending : Text) (k : ℕ)
        → out s ≡ base
        → Keeps out base (recv_body machine to_u64 read close s r pending k)
    unfolding recv_body read_fix_size
    recv_body-Keeps s r pending zero h = h
    recv_body-Keeps s r pending (suc k) h = elim (Bool-cases (leb (suc k) (length pending))) [
      | inl l ↦ rw l h
      | inr l ↦
          let m = suc k - length pending in
          rw l (
            with_body-Keeps r pending m (read_fix_loop read m m s [])
              (read_fix_loop-Keeps m m s [] h))
    ]

    recv_rest-Keeps :
        (h : Head S G)
        → HeadKeeps out base h
        → Keeps out base (recv_rest machine to_u64 read close h)
    unfolding recv_rest HeadKeeps
    recv_rest-Keeps (head_read s p pending) h =
        recv_body-Keeps s p.message pending (signed_length (get_content_length machine to_u64 p)) h
    recv_rest-Keeps (head_closed s) h = h
    recv_rest-Keeps head_unfinished h = tt

    pub recv_request-Keeps :
        (fuel status : ℕ) (s : S)
        → out s ≡ base
        → Keeps out base (recv_request machine to_u64 read close fuel status s)
    unfolding recv_request
    recv_request-Keeps fuel status s h =
        recv_rest-Keeps (recv_head machine to_u64 read close fuel s (new_parser machine status) [])
          (recv_head-Keeps fuel s (new_parser machine status) [] h)
