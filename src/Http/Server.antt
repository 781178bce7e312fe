-- ===== src/Http/Server.antt =====
-- server/http/http_server.cc and servlet.cc: the loop over the requests of a connection, with the
-- servlet that the dispatch finds. What a servlet makes of a response is a parameter.
pub mod Sending
pub mod Keeping
pub mod Answering
pub mod Examples
use zjh_server.Base.{ℕ, zero, suc, List, if◌then◌else◌, Bool, not, ◌||◌, Option, none, some}
use zjh_server.Base.Text.{Text, codes}
use zjh_server.Stream.{Transfer, Outcome, whole, broken, out_of_fuel, Sent}
use zjh_server.Servlet.{ServletDispatch, get_matched_servlet}
use zjh_server.Http.Request.{HttpRequest}
use zjh_server.Http.Response.{HttpResponse, new_response, set_response_header, set_status, set_body}
use zjh_server.Http.Parser.{Machine}
use zjh_server.Http.Session.{
  Received, received, no_request, unfinished, recv_request, send_response,
}

-- `NotFoundServlet::handle`
unfoldable pub not_found : HttpResponse → HttpResponse
unfolding set_status set_response_header set_body
not_found rsp =
    set_body
      (codes
        "<html><head><title>404 Not Found</title></head><body><center><h1>404 Not Found</h1></center><hr><center>Hello, This is My Server!</center></body></html>")
      (set_response_header (codes "Content-Type") (codes "text/html") (set_status 404 rsp))

-- `ServletDispatch::handle`
unfoldable pub dispatch :
    (Text → Text → Bool)
    → (ℕ → HttpRequest → HttpResponse → HttpResponse)
    → ServletDispatch
    → HttpRequest
    → HttpResponse
    → HttpResponse
unfolding get_matched_servlet
dispatch matches servlets d req rsp = servlets (get_matched_servlet matches req.path d) req rsp

-- The stream after a send, whose answer is not looked at.
unfoldable pub stream_after : {S : Type 0} → S → Outcome S → S
stream_after s (whole t bytes) = t
stream_after s (broken t bytes n) = t
stream_after s out_of_fuel = s

module _ {S G : Type 0} (machine : Machine G) (to_u64 : Text → Option ℕ)
    (read : S → ℕ → S × Transfer) (write : S → List ℕ → S × Sent) (close : S → S) (name : Text)
    (is_keep_live : Bool) (handle : HttpRequest → HttpResponse → HttpResponse) where
  unfoldable pub response_for : HttpRequest → HttpResponse
  unfolding new_response set_response_header
  response_for req = handle req (
      set_response_header (codes "Server") name
        (new_response req.version (req.close || not is_keep_live)))

  -- One round; `next` are the rounds from a stream on.
  unfoldable pub serve : Received S → (S → Option S) → Option S
  unfolding response_for send_response stream_after
  serve (no_request s) next = some (close s)
  serve unfinished next = none
  serve (received s req) next =
      let rsp = response_for req in
      let t = stream_after s (send_response write rsp s) in
      if not is_keep_live || req.close then some (close t) else next t

  -- The stream at the end, or no end.
  unfoldable pub handle_client : ℕ → ℕ → ℕ → S → Option S
  unfolding serve recv_request
  handle_client zero fuel status s = none
  handle_client (suc rounds) fuel status s =
      serve (recv_request machine to_u64 read close fuel status s)
        (λ t. handle_client rounds fuel status t)
