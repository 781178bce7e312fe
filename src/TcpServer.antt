-- ===== src/TcpServer.antt =====
-- server/tcp_server.h and tcp_server.cc: binding, accepting, starting and stopping. A socket is
-- known by a number. What `bind`, `listen` and `accept` of a socket answer is an argument.
pub mod Binding
pub mod Examples
use zjh_server.Base.{
  ℕ, ◌*◌, List, [], ◌∷◌, ◌++◌, if◌then◌else◌, Bool, true, false, Option, none, some, ◌&&◌,
}
use zjh_server.Base.Text.{Text, codes}

pub record TcpServer : Type 0 where
  pub socks : List ℕ
  pub recv_timeout : ℕ
  pub name : Text
  pub is_stop : Bool

unfoldable pub new_server : TcpServer
new_server = record {
  socks = [];
  recv_timeout = 60 * 1000 * 2;
  name = codes "will/1.0.0";
  is_stop = true;
}

-- An address with the socket made for it, and whether `bind` and `listen` succeed.
pub record Attempt : Type 0 where
  pub address : ℕ
  pub sock : ℕ
  pub binds : Bool
  pub listens : Bool

-- The loop: the sockets and the addresses that fail.
unfoldable pub bind_loop : List Attempt → List ℕ → List ℕ → List ℕ × List ℕ
bind_loop [] socks fails = (socks, fails)
bind_loop (a ∷ rest) socks fails =
    bind_loop rest (if a.binds && a.listens then socks ++ a.sock ∷ [] else socks)
      (if a.binds && a.listens then fails else fails ++ a.address ∷ [])

abbrev pub no_fails : List ℕ → Bool
no_fails [] = true
no_fails (f ∷ fs) = false

-- The server, the failures and the answer.
unfoldable pub bind_all : List Attempt → List ℕ → TcpServer → TcpServer × List ℕ × Bool
unfolding bind_loop
bind_all attempts fails s =
    let r = bind_loop attempts s.socks fails in
    let kept = if no_fails r.1 then r.0 else [] in (record s { socks = kept }, r.1, no_fails r.1)

-- What is scheduled: accepting on a socket, handling a client with the timeout it gets, or the end.
pub data Task : Type 0 where
  accept_on : ℕ → Task
  handle_client_of : ℕ → ℕ → Task
  close_all : Task

-- One round of `startAccept`, where `accept` gives a client or not.
unfoldable pub accept_round : Option ℕ → TcpServer → List Task
accept_round none s = []
accept_round (some client) s = handle_client_of client s.recv_timeout ∷ []

-- The rounds for what `accept` gives, as long as the server is not stopped; `stops` says before which
-- round it is.
unfoldable pub start_accept : List (Bool × Option ℕ) → TcpServer → List Task
unfolding accept_round
start_accept [] s = []
start_accept (r ∷ rounds) s =
    let rest = start_accept rounds s in
    if s.is_stop then [] else (if r.0 then [] else accept_round r.1 s ++ rest)

abbrev pub accept_tasks : List ℕ → List Task
accept_tasks [] = []
accept_tasks (s ∷ ss) = accept_on s ∷ accept_tasks ss

unfoldable pub start_server : TcpServer → TcpServer × List Task
start_server s = if s.is_stop then (record s { is_stop = false }, accept_tasks s.socks) else (s, [])

unfoldable pub stop_server : TcpServer → TcpServer × List Task
stop_server s = (record s { is_stop = true }, close_all ∷ [])

-- The task that `stop` schedules: the sockets that are closed.
unfoldable pub run_close : TcpServer → TcpServer × List ℕ
run_close s = (record s { socks = [] }, s.socks)
