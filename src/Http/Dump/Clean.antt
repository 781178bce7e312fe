-- ===== src/Http/Dump/Clean.antt =====
-- server/http/http.cc: the first lines that `dump` writes have no carriage return in them.
use zjh_server.Base.{
  ℕ, ◌/◌, ◌%◌, ◌≡◌, refl, inl, inr, List, [], ◌∷◌, ◌++◌, Bool, not, ◌&&◌, true, false, arith,
  Bool-cases, ◌==◌,
}
use zjh_server.Base.Text.{Text, codes}
use zjh_server.Base.Text.Decimal.{to_decimal, has_byte, has_byte-to_decimal}
use zjh_server.Http.Method.{
  HttpMethod, delete, get_method, head, post, put_method, connect, options, trace, copy, lock,
  mkcol, move, propfind, proppatch, search_method, unlock, bind, rebind, unbind, acl, report,
  mkactivity, checkout, merge, msearch, notify, subscribe, unsubscribe, patch, purge, mkcalendar,
  link, unlink, source, invalid_method, http_method_to_string, http_status_to_string, message_at,
  status_map,
}
use zjh_server.Http.Request.{HttpRequest}
use zjh_server.Http.Response.{HttpResponse}
use zjh_server.Http.Dump.{version_text, marked, request_line, reason_text, status_line}
use zjh_server.Http.Dump.Reader.{clean_append}

method_clean : (m : HttpMethod) → has_byte 13 (http_method_to_string m) ≡ false
unfolding has_byte http_method_to_string
method_clean delete = refl
method_clean get_method = refl
method_clean head = refl
method_clean post = refl
method_clean put_method = refl
method_clean connect = refl
method_clean options = refl
method_clean trace = refl
method_clean copy = refl
method_clean lock = refl
method_clean mkcol = refl
method_clean move = refl
method_clean propfind = refl
method_clean proppatch = refl
method_clean search_method = refl
method_clean unlock = refl
method_clean bind = refl
method_clean rebind = refl
method_clean unbind = refl
method_clean acl = refl
method_clean report = refl
method_clean mkactivity = refl
method_clean checkout = refl
method_clean merge = refl
method_clean msearch = refl
method_clean notify = refl
method_clean subscribe = refl
method_clean unsubscribe = refl
method_clean patch = refl
method_clean purge = refl
method_clean mkcalendar = refl
method_clean link = refl
method_clean unlink = refl
method_clean source = refl
method_clean invalid_method = refl

rows_clean : List (ℕ × Text) → Bool
unfolding has_byte
rows_clean [] = true
rows_clean (row ∷ rows) = not (has_byte 13 row.1) && rows_clean rows

message_clean :
    (code : ℕ) (rows : List (ℕ × Text))
    → rows_clean rows ≡ true
    → has_byte 13 (message_at code rows) ≡ false
unfolding rows_clean message_at has_byte
message_clean code [] h = refl
message_clean code (row ∷ rows) h = elim (Bool-cases (row.0 == code)) [
  | inl e ↦ rw e (ground (arith, h))
  | inr e ↦ rw e (message_clean code rows (ground (arith, h)))
]

status_clean : (code : ℕ) → has_byte 13 (http_status_to_string code) ≡ false
unfolding http_status_to_string status_map rows_clean has_byte
status_clean code = message_clean code status_map refl

version_clean : (version : ℕ) → has_byte 13 (version_text version) ≡ false
unfolding version_text has_byte
version_clean version =
    clean_append 13 (to_decimal (version / 16)) (codes "." ++ to_decimal (version % 16))
      (has_byte-to_decimal 13 (version / 16) (omega arith))
      (has_byte-to_decimal 13 (version % 16) (omega arith))

marked_clean :
    (b : ℕ) (t : Text) → has_byte 13 (b ∷ t) ≡ false → has_byte 13 (marked (b ∷ []) t) ≡ false
unfolding marked has_byte
marked_clean b [] h = refl
marked_clean b (x ∷ xs) h = h

pub request_line_clean :
    (r : HttpRequest)
    → has_byte 13 r.path ≡ false
    → has_byte 13 r.query ≡ false
    → has_byte 13 r.fragment ≡ false
    → has_byte 13 (request_line r) ≡ false
unfolding request_line has_byte
request_line_clean r p q f =
    clean_append 13 (http_method_to_string r.method) _ (method_clean r.method) (
      clean_append 13 r.path _ p (
        clean_append 13 (marked (codes "?") r.query) _ (marked_clean b'?' r.query q) (
          clean_append 13 (marked (codes "#") r.fragment) _ (marked_clean b'#' r.fragment f)
            (version_clean r.version))))

reason_clean :
    (status : ℕ) (reason : Text)
    → has_byte 13 reason ≡ false
    → has_byte 13 (reason_text status reason) ≡ false
unfolding reason_text
reason_clean status [] h = status_clean status
reason_clean status (b ∷ bs) h = h

pub status_line_clean :
    (r : HttpResponse) → has_byte 13 r.reason ≡ false → has_byte 13 (status_line r) ≡ false
unfolding status_line has_byte
status_line_clean r h = clean_append 13 (version_text r.version) _ (version_clean r.version) (
    clean_append 13 (to_decimal r.status) _ (has_byte-to_decimal 13 r.status (omega arith))
      (reason_clean r.status r.reason h))
