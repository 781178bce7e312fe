-- ===== src/TcpServer/Examples.antt =====
-- server/tcp_server.cc: binding two addresses, the second in use.
use zjh_server.Base.{◌≡◌, [], ◌∷◌, ◌++◌, List, if◌then◌else◌, true, false}
use zjh_server.TcpServer.{Attempt, new_server, bind_all}
use zjh_server.TcpServer.Binding.{all_bound, bound, failing, bind_all_lem}

abbrev two : List Attempt
two =
    record { address = 1; sock = 5; binds = true; listens = true }
    ∷ record { address = 2; sock = 6; binds = false; listens = false }
    ∷ []

bind_all_example :
    let r = bind_all two [] new_server in
    (r.2 ≡ all_bound two)
    × (r.1 ≡ failing two)
    × (r.0.socks ≡ (if all_bound two then new_server.socks ++ bound two else []))
bind_all_example = bind_all_lem two new_server
