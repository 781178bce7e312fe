-- ===== src/Http/Dump/Messages.antt =====
-- server/http/http.cc: a reader of frames gets back the lines and the body of what `dump` writes.
use mathlib.Core.List.{append_assoc}
use zjh_server.Base.{◌≡◌, refl, ap, ◌∙◌, [], ◌∷◌, ◌++◌, Bool, true, false, some, length, drop}
use zjh_server.Base.Text.{Text, codes}
use zjh_server.Base.Text.Decimal.{from_decimal, has_byte, from_decimal-to_decimal}
use zjh_server.Http.Method.{
  HttpMethod, delete, get_method, head, post, put_method, connect, options, trace, copy, lock,
  mkcol, move, propfind, proppatch, search_method, unlock, bind, rebind, unbind, acl, report,
  mkactivity, checkout, merge, msearch, notify, subscribe, unsubscribe, patch, purge, mkcalendar,
  link, unlink, source, invalid_method, http_method_to_string,
}
use zjh_server.Http.Request.{HttpRequest}
use zjh_server.Http.Response.{HttpResponse}
use zjh_server.Http.Dump.{
  header_lines, connection_line, length_line, ending, request_line, dump_request, status_line,
  dump_response,
}
use zjh_server.Http.Dump.Reader.{read_head, is_blank, read_line}
use zjh_server.Http.Dump.Clean.{request_line_clean, status_line_clean}
use zjh_server.Http.Dump.Framing.{
  AllClean, lines_of, length_lines, read_headers, read_ending, read_connection,
}

start_not_empty : (m : HttpMethod) (t : Text) → is_blank (http_method_to_string m ++ t) ≡ false
unfolding is_blank http_method_to_string
start_not_empty delete t = refl
start_not_empty get_method t = refl
start_not_empty head t = refl
start_not_empty post t = refl
start_not_empty put_method t = refl
start_not_empty connect t = refl
start_not_empty options t = refl
start_not_empty trace t = refl
start_not_empty copy t = refl
start_not_empty lock t = refl
start_not_empty mkcol t = refl
start_not_empty move t = refl
start_not_empty propfind t = refl
start_not_empty proppatch t = refl
start_not_empty search_method t = refl
start_not_empty unlock t = refl
start_not_empty bind t = refl
start_not_empty rebind t = refl
start_not_empty unbind t = refl
start_not_empty acl t = refl
start_not_empty report t = refl
start_not_empty mkactivity t = refl
start_not_empty checkout t = refl
start_not_empty merge t = refl
start_not_empty msearch t = refl
start_not_empty notify t = refl
start_not_empty subscribe t = refl
start_not_empty unsubscribe t = refl
start_not_empty patch t = refl
start_not_empty purge t = refl
start_not_empty mkcalendar t = refl
start_not_empty link t = refl
start_not_empty unlink t = refl
start_not_empty source t = refl
start_not_empty invalid_method t = refl

request_line_not_empty : (r : HttpRequest) → is_blank (request_line r) ≡ false
unfolding request_line
request_line_not_empty r = start_not_empty r.method _

-- What a message says of the connection.
abbrev pub connection_says : Bool → Text
connection_says true = codes "connection: close"
connection_says false = codes "connection: keep-alive"

connection_line_lem : (close : Bool) → connection_line close ≡ connection_says close
unfolding connection_line
connection_line_lem true = refl
connection_line_lem false = refl

pub content_length_lem :
    (body : Text)
    → from_decimal 0 (drop (length (codes "content-length: ")) (length_line body))
      ≡ some (length body)
unfolding length_line
content_length_lem body = from_decimal-to_decimal (length body)

-- For a request whose path, query, fragment and headers have no carriage return, a reader of
-- CR LF lines gets from what `dump` writes the request line, the line `connection: close` or
-- `connection: keep-alive` as the request has it, the other headers in order and the length
-- line of a body that is there, and then exactly the body and what stands behind the message.
pub dump_request_lem :
    (r : HttpRequest) (rest : Text)
    → has_byte 13 r.path ≡ false
    → has_byte 13 r.query ≡ false
    → has_byte 13 r.fragment ≡ false
    → AllClean r.headers
    → read_head false [] [] (dump_request r ++ rest)
      ≡ some (
        request_line r ∷ connection_says r.close ∷ (lines_of r.headers ++ length_lines r.body),
        r.body ++ rest,
      )
unfolding dump_request
dump_request_lem r rest p q f c =
    ap (λ t. read_head false [] [] t) (pieces rest)
    ∙ read_line (request_line r) _ [] (request_line_clean r p q f) (request_line_not_empty r)
    ∙ read_connection r.close _ (request_line r ∷ [])
    ∙ read_headers r.headers _ (request_line r ∷ connection_line r.close ∷ []) c
    ∙ read_ending r.body rest _
    ∙ ap
        (λ l.
          some (request_line r ∷ l ∷ (lines_of r.headers ++ length_lines r.body), r.body ++ rest))
        (connection_line_lem r.close)
  where
    pieces :
        (rest : Text)
        → dump_request r ++ rest
          ≡ request_line r
            ++ (13
                ∷ 10
                ∷ (connection_line r.close
                    ++ (13 ∷ 10 ∷ (header_lines r.headers ++ (ending r.body ++ rest)))))
    pieces rest =
        rw
          (
            append_assoc (request_line r),
            append_assoc (connection_line r.close),
            append_assoc (header_lines r.headers),
          )
          refl

-- For a response whose reason and headers have no carriage return, a reader of CR LF lines
-- gets from what `dump` writes the status line, the headers but `connection` in order, the
-- line `connection: close` or `connection: keep-alive` as the response has it, and the length
-- line of a body that is there, and then exactly the body and what stands behind the message.
pub dump_response_lem :
    (r : HttpResponse) (rest : Text)
    → has_byte 13 r.reason ≡ false
    → AllClean r.headers
    → read_head false [] [] (dump_response r ++ rest)
      ≡ some (
        status_line r ∷ (lines_of r.headers ++ (connection_says r.close ∷ length_lines r.body)),
        r.body ++ rest,
      )
unfolding dump_response is_blank status_line
dump_response_lem r rest h c =
    ap (λ t. read_head false [] [] t) (pieces rest)
    ∙ read_line (status_line r) _ [] (status_line_clean r h) refl
    ∙ read_headers r.headers _ (status_line r ∷ []) c
    ∙ read_connection r.close _ (status_line r ∷ lines_of r.headers)
    ∙ read_ending r.body rest _
    ∙ ap (λ ls. some (status_line r ∷ ls, r.body ++ rest))
        (append_assoc (lines_of r.headers) (connection_line r.close ∷ []) (length_lines r.body))
    ∙ ap
        (λ l.
          some (status_line r ∷ (lines_of r.headers ++ (l ∷ length_lines r.body)), r.body ++ rest))
        (connection_line_lem r.close)
  where
    pieces :
        (rest : Text)
        → dump_response r ++ rest
          ≡ status_line r
            ++ (13
                ∷ 10
                ∷ (header_lines r.headers
                    ++ (connection_line r.close ++ (13 ∷ 10 ∷ (ending r.body ++ rest)))))
    pieces rest =
        rw
          (
            append_assoc (status_line r),
            append_assoc (header_lines r.headers),
            append_assoc (connection_line r.close),
          )
          refl
