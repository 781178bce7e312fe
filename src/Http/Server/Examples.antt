-- ===== src/Http/Server/Examples.antt =====
-- server/http/http_server.cc and http_session.cc: the theorems on a stream that is the bytes to come.
use zjh_server.Base.{
  ℕ, zero, suc, ◌≤◌, ◌<◌, ◌≡◌, List, [], ◌∷◌, ◌++◌, refl, sym, ap, Bool, true, false, some, arith,
  length, take, drop, length-drop,
}
use zjh_server.Base.Text.{Text, codes}
use zjh_server.Base.Text.Decimal.{from_decimal}
use zjh_server.Stream.{Transfer, moved, Sent, sent}
use zjh_server.Stream.Whole.{Bounded}
use zjh_server.Http.Parser.{Machine, request_method, request_field}
use zjh_server.Http.Session.{recv_request}
use zjh_server.Http.Session.Receiving.{has_bytes, Complete, recv_request_lem}
use zjh_server.Http.Server.{handle_client, not_found}
use zjh_server.Http.Server.Answering.{Conversation, handle_client_lem}

abbrev read : Text → ℕ → Text × Transfer
read s n = (drop n s, moved (take n s))

abbrev shut : Text → Text
shut s = []

progress : (s : Text) (n : ℕ) → has_bytes (read s n).1 ≡ true → length (read s n).0 < length s
progress s zero h = absurd (ground (arith, h))
progress [] (suc n) h = absurd (ground (arith, h))
progress (b ∷ bs) (suc n) h = omega (arith, length-drop n bs)

quiet : (s : Text) (n : ℕ) → length (read s n).0 ≤ length s
quiet s n = omega (arith, length-drop n s)

bounded : (s : Text) (n : ℕ) → Bounded n (read s n).1
bounded s zero = omega arith
bounded [] (suc n) = omega arith
bounded (b ∷ bs) (suc n) = omega (arith, bounded bs n)

-- A parser that takes a line of four bytes as a request with two bytes of body.
abbrev four_bytes : Machine Bool
four_bytes = record {
  start = false;
  run = λ g buffer.
      (true, 4, request_method buffer ∷ request_field (codes "content-length") (codes "2") ∷ []);
  finished = λ g. g;
  in_error = λ g. false;
}

abbrev two_requests : Text
two_requests = codes "GET hi"

recv_request_example :
    Complete (from_decimal 0) (recv_request four_bytes (from_decimal 0) read shut 9 0 two_requests)
recv_request_example =
    recv_request_lem four_bytes (from_decimal 0) read shut length progress bounded 9 0 two_requests
      (omega arith)

take_taken : (n : ℕ) (bs : List ℕ) → take (length (take n bs)) bs ≡ take n bs
take_taken zero bs = refl
take_taken (suc n) [] = refl
take_taken (suc n) (b ∷ bs) = ap (λ l. b ∷ l) (take_taken n bs)

-- The bytes to come and the bytes taken. A call of `write` takes at most ten bytes.
abbrev Pipe : Type 0
Pipe = Text × Text

abbrev read_end : Pipe → ℕ → Pipe × Transfer
read_end s n = ((drop n s.0, s.1), moved (take n s.0))

abbrev write_end : Pipe → List ℕ → Pipe × Sent
write_end s bs = ((s.0, s.1 ++ take 10 bs), sent (length (take 10 bs)))

abbrev shut_end : Pipe → Pipe
shut_end s = ([], s.1)

abbrev taken : Pipe → List ℕ
taken s = s.1

handle_client_example :
    (t : Pipe) × (all : List ℕ) × (handle_client four_bytes
        (from_decimal 0)
        read_end
        write_end
        shut_end
        (codes "s")
        true
        (λ req rsp. not_found rsp)
        9
        9
        0
        (two_requests, [])
      ≡ some t)
    × Conversation four_bytes
        (from_decimal 0)
        read_end
        write_end
        shut_end
        (codes "s")
        true
        (λ req rsp. not_found rsp)
        taken
        9
        0
        (two_requests, [])
        all
        t
    × (taken t ≡ all)
handle_client_example =
    handle_client_lem four_bytes (from_decimal 0) read_end write_end shut_end (codes "s") true
      (λ req rsp. not_found rsp) taken (λ s. length s.0) (λ s. progress s.0) (λ s. quiet s.0)
      (λ s. bounded s.0) (λ s bs. omega arith) (λ s n. refl) (λ s. refl)
      (λ s bs. ap (λ l. s.1 ++ l) (sym (take_taken 10 bs))) 9 9 0 (two_requests, []) (omega arith)
      (omega arith)
