-- ===== src/Http/Dump.antt =====
-- server/http/http.cc: the bytes that `dump` writes for a request and a response.
pub mod Reader
pub mod Clean
pub mod Framing
pub mod Messages
use zjh_server.Base.{ℕ, ◌/◌, ◌%◌, [], ◌∷◌, ◌++◌, if◌then◌else◌, Bool, length}
use zjh_server.Base.Text.{Text, codes, same_text, caseless}
use zjh_server.Base.Text.Decimal.{to_decimal}
use zjh_server.Http.Method.{http_method_to_string, http_status_to_string}
use zjh_server.Http.MapType.{MapType}
use zjh_server.Http.Request.{HttpRequest}
use zjh_server.Http.Response.{HttpResponse}

abbrev pub crlf : Text
crlf = 13 ∷ 10 ∷ []

-- The headers of a message but `connection`, which a field gives.
unfoldable pub header_lines : MapType → Text
unfolding same_text caseless
header_lines [] = []
header_lines (e ∷ es) =
    let rest = header_lines es in
    if same_text (caseless e.0) (caseless (codes "connection"))
    then rest
    else (e.0 ++ (codes ": " ++ e.1)) ++ (crlf ++ rest)

unfoldable pub connection_line : Bool → Text
connection_line close =
    codes "connection: " ++ (if close then codes "close" else codes "keep-alive")

unfoldable pub length_line : Text → Text
unfolding to_decimal
length_line body = codes "content-length: " ++ to_decimal (length body)

-- The end of a message: the length of the body and the body, if there is one.
unfoldable pub ending : Text → Text
unfolding length_line
ending [] = crlf
ending (b ∷ bs) = length_line (b ∷ bs) ++ (crlf ++ (crlf ++ (b ∷ bs)))

unfoldable pub version_text : ℕ → Text
unfolding to_decimal
version_text version = to_decimal (version / 16) ++ (codes "." ++ to_decimal (version % 16))

-- A part of the address, behind its mark, if it is not empty.
unfoldable pub marked : Text → Text → Text
marked mark [] = []
marked mark (b ∷ bs) = mark ++ (b ∷ bs)

unfoldable pub request_line : HttpRequest → Text
unfolding http_method_to_string marked version_text
request_line r =
    http_method_to_string r.method
    ++ (codes " "
        ++ (r.path
            ++ (marked (codes "?") r.query
                ++ (marked (codes "#") r.fragment ++ (codes " HTTP/" ++ version_text r.version)))))

unfoldable pub dump_request : HttpRequest → Text
unfolding request_line connection_line header_lines ending
dump_request r =
    request_line r
    ++ (crlf ++ (connection_line r.close ++ (crlf ++ (header_lines r.headers ++ ending r.body))))

-- The reason that was set, or the message of the status.
unfoldable pub reason_text : ℕ → Text → Text
unfolding http_status_to_string
reason_text status [] = http_status_to_string status
reason_text status (b ∷ bs) = b ∷ bs

unfoldable pub status_line : HttpResponse → Text
unfolding version_text to_decimal reason_text
status_line r =
    codes "HTTP/"
    ++ (version_text r.version
        ++ (codes " " ++ (to_decimal r.status ++ (codes " " ++ reason_text r.status r.reason))))

unfoldable pub dump_response : HttpResponse → Text
unfolding status_line header_lines connection_line ending
dump_response r =
    status_line r
    ++ (crlf ++ (header_lines r.headers ++ (connection_line r.close ++ (crlf ++ ending r.body))))
