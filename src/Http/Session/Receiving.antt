-- ===== src/Http/Session/Receiving.antt =====
-- server/http/http_session.cc: a request that is received has its whole body.
use zjh_server.Base.{
  ℕ, zero, suc, ◌+◌, ◌-◌, ◌<◌, ◌≡◌, refl, sym, ap, ◌∙◌, inl, inr, List, [], ◌∷◌, ◌++◌, ◌==◌, leb,
  Bool, true, false, Option, arith, length, take, length-append, length-take, Bool-cases, leb→le,
  leb→lt,
}
use zjh_server.Base.Text.{Text, codes, caseless, same_text}
use zjh_server.Stream.{Transfer, moved, failed, Outcome, whole, broken, out_of_fuel, read_fix_size}
use zjh_server.Stream.Whole.{Bounded, Ended, read_fix_size_lem}
use zjh_server.Http.Method.{HttpMethod, method_number, chars_to_http_method}
use zjh_server.Http.Request.{
  HttpRequest, get_header, get_header_as, set_method, set_request_body, set_request_close,
  set_request_version, set_path, set_query, set_fragment, set_header,
}
use zjh_server.Http.Parser.{
  RequestCallback, request_method, request_uri, request_fragment, request_path, request_query,
  request_version, request_header_done, request_field, on_method, on_request_version, on_request,
  on_requests, begins_alike, Machine, HttpRequestParser, new_parser, execute, is_finished,
  has_error, get_content_length,
}
use zjh_server.Http.Session.{
  Head, head_read, head_closed, head_unfinished, Received, received, no_request, unfinished,
  buffer_size, signed_length, keep_alive, after_execute, after_read, recv_head, positive_int,
  with_body, recv_body, recv_rest, recv_request,
}

-- What the `content-length` of a request says, read by `lexical_cast`.
unfoldable pub body_length : (Text → Option ℕ) → HttpRequest → ℕ
unfolding signed_length get_header_as
body_length to_u64 r = signed_length (get_header_as to_u64 (codes "content-length") 0 r)

-- A request has the body that its header announces; the loops have ended.
abbrev pub Complete : {S : Type 0} → (Text → Option ℕ) → Received S → Type 0
Complete to_u64 (received s r) = length r.body ≡ body_length to_u64 r
Complete to_u64 (no_request s) = true ≡ true
Complete to_u64 unfinished = ⊥

abbrev pub has_bytes : Transfer → Bool
has_bytes (moved []) = false
has_bytes (moved (b ∷ bs)) = true
has_bytes (failed n) = false

-- The head is read, the message having no body yet.
abbrev HeadOk : {S G : Type 0} → Head S G → Type 0
HeadOk (head_read s p left) = p.message.body ≡ []
HeadOk (head_closed s) = true ≡ true
HeadOk head_unfinished = ⊥

method_body : (m : HttpMethod) (r : HttpRequest) (e : ℕ) → (on_method m (r, e)).0.body ≡ r.body
unfolding on_method set_method
method_body m r e = elim (Bool-cases (method_number m == 34)) [
  | inl h ↦ rw h refl
  | inr h ↦ rw h refl
]

version_body :
    (at : Text) (n : ℕ) (r : HttpRequest) (e : ℕ) → (on_request_version at n (r, e)).0.body ≡ r.body
unfolding on_request_version set_request_version
version_body at n r e = elim (Bool-cases (begins_alike n at (codes "HTTP/1.1"))) [
  | inl h ↦ rw h refl
  | inr h ↦ elim (Bool-cases (begins_alike n at (codes "HTTP/1.0"))) [
    | inl k ↦ rw (h, k) refl
    | inr k ↦ rw (h, k) refl
  ]
]

on_request_body :
    (c : RequestCallback) (r : HttpRequest) (e : ℕ) → (on_request c (r, e)).0.body ≡ r.body
unfolding on_request on_method set_method set_fragment set_path set_query set_header
on_request_body (request_method at) r e = method_body (chars_to_http_method at) r e
on_request_body request_uri r e = refl
on_request_body (request_fragment at n) r e = refl
on_request_body (request_path at n) r e = refl
on_request_body (request_query at n) r e = refl
on_request_body (request_version at n) r e = version_body at n r e
on_request_body request_header_done r e = refl
on_request_body (request_field [] value) r e = refl
on_request_body (request_field (b ∷ bs) value) r e = refl

on_requests_body :
    (cs : List RequestCallback) (p : HttpRequest × ℕ) → (on_requests cs p).0.body ≡ p.0.body
unfolding on_requests
on_requests_body [] p = refl
on_requests_body (c ∷ cs) p = on_requests_body cs (on_request c p) ∙ on_request_body c p.0 p.1

keep_alive_same :
    (to_u64 : Text → Option ℕ) (r : HttpRequest)
    → (length (keep_alive r).body ≡ length r.body)
      × (body_length to_u64 (keep_alive r) ≡ body_length to_u64 r)
unfolding keep_alive set_request_close body_length get_header_as
keep_alive_same to_u64 r =
    elim (Bool-cases (
      same_text (caseless (get_header (codes "Connection") [] r))
        (caseless (codes "keep-alive")))) [ inl h ↦ rw h (refl, refl) | inr h ↦ rw h (refl, refl) ]

module _ {S G : Type 0} (machine : Machine G) (to_u64 : Text → Option ℕ)
    (read : S → ℕ → S × Transfer) (close : S → S) where
  execute_body :
      (p : HttpRequestParser G) (buffer : Text)
      → p.message.body ≡ []
      → (execute machine p buffer).0.message.body ≡ []
  unfolding execute
  execute_body p buffer h = on_requests_body (machine.run p.gen buffer).2 (p.message, p.error) ∙ h

  after_execute-HeadOk :
      (s : S) (e : HttpRequestParser G × Text) (rest : Head S G)
      → e.0.message.body ≡ []
      → HeadOk rest
      → HeadOk (after_execute machine to_u64 read close s e rest)
  unfolding after_execute
  after_execute-HeadOk s (p, left) rest h k = elim (Bool-cases (has_error machine p)) [
    | inl a ↦ rw a refl
    | inr a ↦ elim (Bool-cases (length left == buffer_size)) [
      | inl b ↦ rw (a, b) refl
      | inr b ↦ elim (Bool-cases (is_finished machine p)) [
        | inl c ↦ rw (a, b, c) h
        | inr c ↦ rw (a, b, c) k
      ]
    ]
  ]

  after_read-HeadOk :
      (s : S) (p : HttpRequestParser G) (pending : Text) (t : Transfer)
      (next : HttpRequestParser G → Text → Head S G)
      → p.message.body ≡ []
      → ((q : HttpRequestParser G) (left : Text)
          → has_bytes t ≡ true
          → q.message.body ≡ []
          → HeadOk (next q left))
      → HeadOk (after_read machine to_u64 read close s p pending t next)
  unfolding after_read
  after_read-HeadOk s p pending (failed n) next h k = refl
  after_read-HeadOk s p pending (moved []) next h k = refl
  after_read-HeadOk s p pending (moved (b ∷ bs)) next h k =
      let e = execute machine p (pending ++ (b ∷ bs)) in
      let m = execute_body p (pending ++ (b ∷ bs)) h in
      after_execute-HeadOk s e (next e.0 e.1) m (k e.0 e.1 refl m)

  recv_head-HeadOk :
      (left : S → ℕ)
      → ((s : S) (n : ℕ) → has_bytes (read s n).1 ≡ true → left (read s n).0 < left s)
      → (fuel : ℕ) (s : S) (p : HttpRequestParser G) (pending : Text) → left s < fuel
      → p.message.body ≡ []
      → HeadOk (recv_head machine to_u64 read close fuel s p pending)
  unfolding recv_head
  recv_head-HeadOk left progress zero s p pending h b = absurd (omega arith)
  recv_head-HeadOk left progress (suc fuel) s p pending h b =
      let n = buffer_size - length pending in
      after_read-HeadOk (read s n).0 p pending (read s n).1
        (λ q rest. recv_head machine to_u64 read close fuel (read s n).0 q rest) b
        (λ q rest t c.
          recv_head-HeadOk left progress fuel (read s n).0 q rest (omega (arith, progress s n t)) c)

  length_kept :
      (r : HttpRequest) (n : ℕ)
      → length r.body ≡ n
      → body_length to_u64 r ≡ n
      → length (keep_alive r).body ≡ body_length to_u64 (keep_alive r)
  length_kept r n h k = let same = keep_alive_same to_u64 r in same.0 ∙ h ∙ sym k ∙ sym same.1

  with_body-Complete :
      (r : HttpRequest) (start : Text) (total asked n : ℕ) (o : Outcome S)
      → body_length to_u64 r ≡ n
      → length start + total ≡ n
      → Ended total o
      → Complete to_u64 (with_body machine to_u64 read close r start asked o)
  unfolding with_body set_request_body body_length
  with_body-Complete r start total asked n (whole s bytes) h k e =
      elim (Bool-cases (positive_int asked)) [
        | inl p ↦ rw p (
            length_kept (set_request_body (start ++ bytes) r) n
              (omega (arith, length-append start bytes, k, e)) h)
        | inr p ↦ rw p refl
      ]
  with_body-Complete r start total asked n (broken s bytes m) h k e = refl
  with_body-Complete r start total asked n out_of_fuel h k e = absurd e

  recv_body-Complete :
      (s : S) (r : HttpRequest) (pending : Text) (n : ℕ)
      → ((u : S) (k : ℕ) → Bounded k (read u k).1)
      → r.body ≡ []
      → body_length to_u64 r ≡ n
      → Complete to_u64 (recv_body machine to_u64 read close s r pending n)
  unfolding recv_body set_request_body body_length
  recv_body-Complete s r pending zero c b h = length_kept r 0 (ap length b) h
  recv_body-Complete s r pending (suc n) c b h = elim (Bool-cases (leb (suc n) (length pending))) [
    | inl l ↦ rw l (
        length_kept (set_request_body (take (suc n) pending) r) (suc n)
          (length-take (suc n) pending (leb→le (suc n) (length pending) l)) h)
    | inr l ↦
        let small = leb→lt (suc n) (length pending) l in
        rw l (
          with_body-Complete r pending (suc n - length pending) (suc n - length pending) (suc n)
            (read_fix_size read (suc n - length pending) s) h (omega (arith, small))
            (read_fix_size_lem read (suc n - length pending) s c))
  ]

  recv_rest-Complete :
      (h : Head S G)
      → ((u : S) (k : ℕ) → Bounded k (read u k).1)
      → HeadOk h
      → Complete to_u64 (recv_rest machine to_u64 read close h)
  unfolding recv_rest get_content_length body_length
  recv_rest-Complete (head_read s p pending) c h =
      recv_body-Complete s p.message pending (signed_length (get_content_length machine to_u64 p)) c
        h refl
  recv_rest-Complete (head_closed s) c h = refl
  recv_rest-Complete head_unfinished c h = absurd h

  -- On a stream that gives no more than it is asked for and loses something with every read
  -- that gives bytes, whatever the generated parser does, `recvRequest` ends within more rounds
  -- than the stream has left, and a request that it returns has a body of exactly the length
  -- that its content-length says, none where that is not above 0 as an `int64_t`.
  pub recv_request_lem :
      (left : S → ℕ)
      → ((s : S) (n : ℕ) → has_bytes (read s n).1 ≡ true → left (read s n).0 < left s)
      → ((u : S) (k : ℕ) → Bounded k (read u k).1)
      → (fuel status : ℕ) (s : S) → left s < fuel
      → Complete to_u64 (recv_request machine to_u64 read close fuel status s)
  unfolding recv_request new_parser
  recv_request_lem left progress c fuel status s h =
      recv_rest-Complete (recv_head machine to_u64 read close fuel s (new_parser machine status) [])
        c (recv_head-HeadOk left progress fuel s (new_parser machine status) [] h refl)
