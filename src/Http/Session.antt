-- ===== src/Http/Session.antt =====
-- server/http/http_session.cc: HttpSession, which receives a request from a stream and sends a
-- response. The stream's `read`, `write` and `close`, the generated parser and `lexical_cast` are
-- parameters.
pub mod Receiving
pub mod Shrinking
use zjh_server.Base.{
  ℕ, zero, suc, ◌-◌, ◌%◌, ◌^◌, List, [], ◌∷◌, ◌++◌, ◌==◌, ltb, leb, if◌then◌else◌, Bool, ◌&&◌,
  false, Option, length, take,
}
use zjh_server.Base.Text.{Text, codes, caseless, same_text}
use zjh_server.Stream.{
  Transfer, moved, failed, Outcome, whole, broken, out_of_fuel, read_fix_size, Sent, write_fix_size,
}
use zjh_server.Http.Request.{HttpRequest, get_header, set_request_body, set_request_close}
use zjh_server.Http.Response.{HttpResponse}
use zjh_server.Http.Dump.{dump_response}
use zjh_server.Http.Parser.{
  Machine, HttpRequestParser, new_parser, execute, is_finished, has_error, get_content_length,
}

-- What the loop over the head gives: the parser with the bytes behind the head, or a closed stream.
pub data Head (S G : Type 0) : Type 0 where
  head_read : S → HttpRequestParser G → Text → Head S G
  head_closed : S → Head S G
  head_unfinished : Head S G

pub data Received (S : Type 0) : Type 0 where
  received : S → HttpRequest → Received S
  no_request : S → Received S
  unfinished : Received S

-- The 4 KiB of the buffer.
abbrev pub buffer_size : ℕ
buffer_size = 4096

-- The `int64_t` made of the content length, where only what is above 0 matters.
unfoldable pub signed_length : ℕ → ℕ
signed_length n = if ltb n (2 ^ 63) then n else 0

-- Whether a length is above 0 as an `int`.
abbrev pub positive_int : ℕ → Bool
positive_int n = ltb 0 (n % 2 ^ 32) && ltb (n % 2 ^ 32) (2 ^ 31)

-- `Connection: keep-alive` turns the closing off.
unfoldable pub keep_alive : HttpRequest → HttpRequest
unfolding same_text caseless get_header set_request_close
keep_alive r =
    if same_text (caseless (get_header (codes "Connection") [] r)) (caseless (codes "keep-alive"))
    then set_request_close false r
    else r

module _ {S G : Type 0} (machine : Machine G) (to_u64 : Text → Option ℕ)
    (read : S → ℕ → S × Transfer) (close : S → S) where
  -- The rest of a round, the parser having run over the bytes.
  unfoldable pub after_execute : S → HttpRequestParser G × Text → Head S G → Head S G
  unfolding has_error is_finished
  after_execute s (p, left) rest =
      if has_error machine p
      then head_closed (close s)
      else (if length left == buffer_size
          then head_closed (close s)
          else (if is_finished machine p then head_read s p left else rest))

  unfoldable pub after_read :
      S → HttpRequestParser G → Text → Transfer → (HttpRequestParser G → Text → Head S G) → Head S G
  unfolding after_execute execute
  after_read s p pending (failed n) next = head_closed (close s)
  after_read s p pending (moved []) next = head_closed (close s)
  after_read s p pending (moved (b ∷ bs)) next =
      let e = execute machine p (pending ++ (b ∷ bs)) in after_execute s e (next e.0 e.1)

  unfoldable pub recv_head : ℕ → S → HttpRequestParser G → Text → Head S G
  unfolding after_read
  recv_head zero s p pending = head_unfinished
  recv_head (suc fuel) s p pending =
      let r = read s (buffer_size - length pending) in
      after_read r.0 p pending r.1 (λ q left. recv_head fuel r.0 q left)

  -- The end of the body, of which `start` is there; `asked` is what `readFixSize` is to read, which it
  -- answers as an `int`.
  unfoldable pub with_body : HttpRequest → Text → ℕ → Outcome S → Received S
  unfolding set_request_body keep_alive
  with_body r start asked (whole s bytes) =
      if positive_int asked
      then received s (keep_alive (set_request_body (start ++ bytes) r))
      else no_request (close s)
  with_body r start asked (broken s bytes n) = no_request (close s)
  with_body r start asked out_of_fuel = unfinished

  unfoldable pub recv_body : S → HttpRequest → Text → ℕ → Received S
  unfolding read_fix_size with_body keep_alive
  recv_body s r pending zero = received s (keep_alive r)
  recv_body s r pending (suc n) =
      if leb (suc n) (length pending)
      then received s (keep_alive (set_request_body (take (suc n) pending) r))
      else with_body r pending (suc n - length pending)
          (read_fix_size read (suc n - length pending) s)

  unfoldable pub recv_rest : Head S G → Received S
  unfolding recv_body signed_length get_content_length
  recv_rest (head_read s p pending) =
      recv_body s p.message pending (signed_length (get_content_length machine to_u64 p))
  recv_rest (head_closed s) = no_request s
  recv_rest head_unfinished = unfinished

  unfoldable pub recv_request : ℕ → ℕ → S → Received S
  unfolding recv_rest recv_head new_parser
  recv_request fuel status s = recv_rest (recv_head fuel s (new_parser machine status) [])

-- `sendResponse`
unfoldable pub send_response : {S : Type 0} → (S → List ℕ → S × Sent) → HttpResponse → S → Outcome S
unfolding dump_response write_fix_size
send_response write rsp s = write_fix_size write (dump_response rsp) s
