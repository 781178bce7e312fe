-- ===== src/Http/Server/Answering.antt =====
-- server/http/http_server.cc: the conversation on a connection, request by request.
use zjh_server.Base.{
  ℕ, zero, suc, ◌≡◌, refl, sym, ap, ◌∙◌, inl, inr, List, [], ◌++◌, Bool, true, false, not, ◌||◌,
  Option, some, arith, Bool-cases, ◌<◌, ◌≤◌, length,
}
use mathlib.Core.List.{append_assoc, append-nil}
use zjh_server.Base.Text.{Text, codes}
use zjh_server.Stream.{
  Transfer, Outcome, whole, broken, out_of_fuel, Sent, write_fix_loop, write_fix_size,
}
use zjh_server.Stream.Whole.{Bounded}
use zjh_server.Http.Session.Receiving.{Complete, has_bytes, recv_request_lem}
use zjh_server.Http.Session.Shrinking.{AtMost, Below, write_fix_loop-AtMost, recv_request-Below}
use zjh_server.Http.Dump.{dump_response}
use zjh_server.Http.Request.{HttpRequest}
use zjh_server.Http.Response.{HttpResponse, new_response, set_response_header}
use zjh_server.Http.Parser.{Machine}
use zjh_server.Http.Session.{
  Received, received, no_request, unfinished, recv_request, send_response,
}
use zjh_server.Http.Server.{stream_after, response_for, serve, handle_client}
use zjh_server.Http.Server.Sending.{Takes, Sends, send_response-Sends}
use zjh_server.Http.Server.Keeping.{Keeps, recv_request-Keeps}

module _ {S G : Type 0} (machine : Machine G) (to_u64 : Text → Option ℕ)
    (read : S → ℕ → S × Transfer) (write : S → List ℕ → S × Sent) (close : S → S) (name : Text)
    (is_keep_live : Bool) (handle : HttpRequest → HttpResponse → HttpResponse)
    (out : S → List ℕ) where
  -- What the answer to a request is written as: what `handle` makes of a response of the request's version
  -- that names the server, and that closes the connection if the request or the server does.
  unfoldable pub answer : HttpRequest → List ℕ
  unfolding dump_response set_response_header new_response
  answer req = dump_response (
      handle req (
        set_response_header (codes "Server") name
          (new_response req.version (req.close || not is_keep_live))))

  -- From a stream on, requests are received one after the other, each is sent its own answer, and the
  -- connection is closed where no request comes or one is not to be followed. The list holds what the
  -- stream takes on the way.
  pub data Conversation (fuel status : ℕ) : S → List ℕ → S → Type 0 where
    over :
        (s u : S)
        → recv_request machine to_u64 read close fuel status s ≡ no_request u
        → Conversation fuel status s [] (close u)
    last :
        (s u t : S) (req : HttpRequest) (done : List ℕ)
        → recv_request machine to_u64 read close fuel status s ≡ received u req
        → Sends write out (answer req) u done t
        → (not is_keep_live || req.close) ≡ true
        → Conversation fuel status s done (close t)
    more :
        (s u t v : S) (req : HttpRequest) (done rest : List ℕ)
        → recv_request machine to_u64 read close fuel status s ≡ received u req
        → Sends write out (answer req) u done t
        → (not is_keep_live || req.close) ≡ false
        → Conversation fuel status t rest v
        → Conversation fuel status s (done ++ rest) v

  Ends : ℕ → ℕ → S → Option S → Type 0
  Ends fuel status s o =
      (t : S) × (all : List ℕ) × (o ≡ some t)
      × Conversation fuel status s all t
      × (out t ≡ out s ++ all)

  after_below :
      (left : S → ℕ) (n : ℕ) (s : S) (rsp : HttpResponse)
      → ((s : S) (bs : List ℕ) → left (write s bs).0 ≤ left s)
      → left s < n
      → left (stream_after s (send_response write rsp s)) < n
  unfolding send_response write_fix_size stream_after
  after_below left n s rsp q h =
      bounded_by (write_fix_loop write (length (dump_response rsp)) (dump_response rsp) s []) (
        write_fix_loop-AtMost left read write q (length (dump_response rsp)) (dump_response rsp)
          (left s) s [] (omega arith))
    where
      bounded_by : (o : Outcome S) → AtMost left read (left s) o → left (stream_after s o) < n
      bounded_by (whole t bytes) e = omega (arith, e, h)
      bounded_by (broken t bytes m) e = omega (arith, e, h)
      bounded_by out_of_fuel e = h

  serve-Ends :
      (left : S → ℕ) (n fuel status : ℕ) (s : S) (r : Received S) (next : S → Option S)
      → ((s : S) → out (close s) ≡ out s)
      → ((s : S) (bs : List ℕ) → Takes write out s bs (write s bs))
      → ((s : S) (bs : List ℕ) → left (write s bs).0 ≤ left s)
      → recv_request machine to_u64 read close fuel status s ≡ r
      → Keeps out (out s) r
      → Below left read n r
      → Complete to_u64 r
      → ((t : S) → left t < n → Ends fuel status t (next t))
      → Ends fuel status s (serve machine to_u64 read write close name is_keep_live handle r next)
  unfolding serve Ends answer response_for
  serve-Ends left n fuel status s (no_request u) next cl tk q e o b c k =
      (close u, [], refl, over s u e, cl u ∙ o ∙ sym (append-nil (out s)))
  serve-Ends left n fuel status s unfinished next cl tk q e o b c k = absurd c
  serve-Ends left n fuel status s (received u req) next cl tk q e o b c k =
      let rsp = response_for machine to_u64 read write close name is_keep_live handle req in
      let t = stream_after u (send_response write rsp u) in
      let (done, sends) = send_response-Sends write out tk rsp u in
      elim (Bool-cases (not is_keep_live || req.close)) [
        | inl h ↦ rw h (
          close t,
          done,
          refl,
          last s u t req done e sends h,
          cl t ∙ sends.0 ∙ ap (λ l. l ++ done) o,
        )
        | inr h ↦
            let (v, rest, f, talk, total) = k t (after_below left n u rsp q b) in
            rw h (
              v,
              done ++ rest,
              f,
              more s u t v req done rest e sends h talk,
              total
                  ∙ ap (λ l. l ++ rest) (sends.0 ∙ ap (λ l. l ++ done) o)
                  ∙ append_assoc (out s) done rest,
            )
      ]

  -- On a stream that gives no more than it is asked for and loses something with every read
  -- that gives bytes, while reads and writes never add to it, and that takes bytes only by
  -- `write`, those that the answer counts, the loop over a connection ends within more rounds
  -- than the stream has left. It receives requests one after the other and sends each the text
  -- of its own response, of which the stream takes all, or what came before a call that took
  -- nothing or failed; it goes on exactly after a request that keeps the connection open, and
  -- else closes. What the stream takes in all is exactly this, in order.
  pub handle_client_lem :
      (left : S → ℕ)
      → ((s : S) (n : ℕ) → has_bytes (read s n).1 ≡ true → left (read s n).0 < left s)
      → ((s : S) (n : ℕ) → left (read s n).0 ≤ left s)
      → ((s : S) (n : ℕ) → Bounded n (read s n).1)
      → ((s : S) (bs : List ℕ) → left (write s bs).0 ≤ left s)
      → ((s : S) (n : ℕ) → out (read s n).0 ≡ out s)
      → ((s : S) → out (close s) ≡ out s)
      → ((s : S) (bs : List ℕ) → Takes write out s bs (write s bs))
      → (rounds fuel status : ℕ) (s : S) → left s < rounds
      → left s < fuel
      → (t : S) × (all : List ℕ) × (handle_client machine to_u64 read write close name is_keep_live
            handle rounds fuel status s
          ≡ some t)
        × Conversation fuel status s all t
        × (out t ≡ out s ++ all)
  unfolding handle_client Ends
  handle_client_lem left p q c w rd cl tk zero fuel status s h k = absurd (omega arith)
  handle_client_lem left p q c w rd cl tk (suc rounds) fuel status s h k =
      serve-Ends left (left s) fuel status s (recv_request machine to_u64 read close fuel status s)
        (λ t.
          handle_client machine to_u64 read write close name is_keep_live handle rounds fuel status
            t)
        cl tk w refl
        (recv_request-Keeps read close out rd cl (out s) machine to_u64 fuel status s refl)
        (recv_request-Below left read machine to_u64 close p q fuel status s)
        (recv_request_lem machine to_u64 read close left p c fuel status s k)
        (λ t small.
          handle_client_lem left p q c w rd cl tk rounds fuel status t (omega arith) (omega arith))
