-- ===== src/Http/Method.antt =====
-- server/http/http.h and http.cc: the methods and statuses with their texts.
pub mod Parsing
use Prim.Native.String.{}
use zjh_server.Base.{ℕ, List, [], ◌∷◌, ◌==◌, if◌then◌else◌, Option, none, some, get_elem?, Bool}
use zjh_server.Base.Text.{Text, codes, same_text, is_prefix, c_str}

pub data HttpMethod : Type 0 where
  delete : HttpMethod
  get_method : HttpMethod
  head : HttpMethod
  post : HttpMethod
  put_method : HttpMethod
  connect : HttpMethod
  options : HttpMethod
  trace : HttpMethod
  copy : HttpMethod
  lock : HttpMethod
  mkcol : HttpMethod
  move : HttpMethod
  propfind : HttpMethod
  proppatch : HttpMethod
  search_method : HttpMethod
  unlock : HttpMethod
  bind : HttpMethod
  rebind : HttpMethod
  unbind : HttpMethod
  acl : HttpMethod
  report : HttpMethod
  mkactivity : HttpMethod
  checkout : HttpMethod
  merge : HttpMethod
  msearch : HttpMethod
  notify : HttpMethod
  subscribe : HttpMethod
  unsubscribe : HttpMethod
  patch : HttpMethod
  purge : HttpMethod
  mkcalendar : HttpMethod
  link : HttpMethod
  unlink : HttpMethod
  source : HttpMethod
  invalid_method : HttpMethod

-- The rows of HTTP_METHOD_MAP.
unfoldable pub method_map : List (HttpMethod × Text)
method_map =
    (delete, codes "DELETE")
    ∷ (get_method, codes "GET")
    ∷ (head, codes "HEAD")
    ∷ (post, codes "POST")
    ∷ (put_method, codes "PUT")
    ∷ (connect, codes "CONNECT")
    ∷ (options, codes "OPTIONS")
    ∷ (trace, codes "TRACE")
    ∷ (copy, codes "COPY")
    ∷ (lock, codes "LOCK")
    ∷ (mkcol, codes "MKCOL")
    ∷ (move, codes "MOVE")
    ∷ (propfind, codes "PROPFIND")
    ∷ (proppatch, codes "PROPPATCH")
    ∷ (search_method, codes "SEARCH")
    ∷ (unlock, codes "UNLOCK")
    ∷ (bind, codes "BIND")
    ∷ (rebind, codes "REBIND")
    ∷ (unbind, codes "UNBIND")
    ∷ (acl, codes "ACL")
    ∷ (report, codes "REPORT")
    ∷ (mkactivity, codes "MKACTIVITY")
    ∷ (checkout, codes "CHECKOUT")
    ∷ (merge, codes "MERGE")
    ∷ (msearch, codes "M-SEARCH")
    ∷ (notify, codes "NOTIFY")
    ∷ (subscribe, codes "SUBSCRIBE")
    ∷ (unsubscribe, codes "UNSUBSCRIBE")
    ∷ (patch, codes "PATCH")
    ∷ (purge, codes "PURGE")
    ∷ (mkcalendar, codes "MKCALENDAR")
    ∷ (link, codes "LINK")
    ∷ (unlink, codes "UNLINK")
    ∷ (source, codes "SOURCE")
    ∷ []

-- The numbers of the enumerators.
unfoldable pub method_number : HttpMethod → ℕ
method_number delete = 0
method_number get_method = 1
method_number head = 2
method_number post = 3
method_number put_method = 4
method_number connect = 5
method_number options = 6
method_number trace = 7
method_number copy = 8
method_number lock = 9
method_number mkcol = 10
method_number move = 11
method_number propfind = 12
method_number proppatch = 13
method_number search_method = 14
method_number unlock = 15
method_number bind = 16
method_number rebind = 17
method_number unbind = 18
method_number acl = 19
method_number report = 20
method_number mkactivity = 21
method_number checkout = 22
method_number merge = 23
method_number msearch = 24
method_number notify = 25
method_number subscribe = 26
method_number unsubscribe = 27
method_number patch = 28
method_number purge = 29
method_number mkcalendar = 30
method_number link = 31
method_number unlink = 32
method_number source = 33
method_number invalid_method = 34

-- The rows of HTTP_STATUS_MAP: codes with their messages.
unfoldable pub status_map : List (ℕ × Text)
status_map =
    (100, codes "Continue")
    ∷ (101, codes "Switching Protocols")
    ∷ (102, codes "Processing")
    ∷ (200, codes "OK")
    ∷ (201, codes "Created")
    ∷ (202, codes "Accepted")
    ∷ (203, codes "Non-Authoritative Information")
    ∷ (204, codes "No Content")
    ∷ (205, codes "Reset Content")
    ∷ (206, codes "Partial Content")
    ∷ (207, codes "Multi-Status")
    ∷ (208, codes "Already Reported")
    ∷ (226, codes "IM Used")
    ∷ (300, codes "Multiple Choices")
    ∷ (301, codes "Moved Permanently")
    ∷ (302, codes "Found")
    ∷ (303, codes "See Other")
    ∷ (304, codes "Not Modified")
    ∷ (305, codes "Use Proxy")
    ∷ (307, codes "Temporary Redirect")
    ∷ (308, codes "Permanent Redirect")
    ∷ (400, codes "Bad Request")
    ∷ (401, codes "Unauthorized")
    ∷ (402, codes "Payment Required")
    ∷ (403, codes "Forbidden")
    ∷ (404, codes "Not Found")
    ∷ (405, codes "Method Not Allowed")
    ∷ (406, codes "Not Acceptable")
    ∷ (407, codes "Proxy Authentication Required")
    ∷ (408, codes "Request Timeout")
    ∷ (409, codes "Conflict")
    ∷ (410, codes "Gone")
    ∷ (411, codes "Length Required")
    ∷ (412, codes "Precondition Failed")
    ∷ (413, codes "Payload Too Large")
    ∷ (414, codes "URI Too Long")
    ∷ (415, codes "Unsupported Media Type")
    ∷ (416, codes "Range Not Satisfiable")
    ∷ (417, codes "Expectation Failed")
    ∷ (421, codes "Misdirected Request")
    ∷ (422, codes "Unprocessable Entity")
    ∷ (423, codes "Locked")
    ∷ (424, codes "Failed Dependency")
    ∷ (426, codes "Upgrade Required")
    ∷ (428, codes "Precondition Required")
    ∷ (429, codes "Too Many Requests")
    ∷ (431, codes "Request Header Fields Too Large")
    ∷ (451, codes "Unavailable For Legal Reasons")
    ∷ (500, codes "Internal Server Error")
    ∷ (501, codes "Not Implemented")
    ∷ (502, codes "Bad Gateway")
    ∷ (503, codes "Service Unavailable")
    ∷ (504, codes "Gateway Timeout")
    ∷ (505, codes "HTTP Version Not Supported")
    ∷ (506, codes "Variant Also Negotiates")
    ∷ (507, codes "Insufficient Storage")
    ∷ (508, codes "Loop Detected")
    ∷ (510, codes "Not Extended")
    ∷ (511, codes "Network Authentication Required")
    ∷ []

-- The text at a place of the table, whose size is the bound of the test.
unfoldable pub string_at : List (HttpMethod × Text) → ℕ → Text
string_at rows n = text (get_elem? rows n)
  where
    text : Option (HttpMethod × Text) → Text
    text none = codes "<unknown>"
    text (some row) = row.1

unfoldable pub http_method_to_string : HttpMethod → Text
unfolding string_at method_map method_number
http_method_to_string m = string_at method_map (method_number m)

-- The first row whose text passes a test.
unfoldable pub first_method : (Text → Bool) → List (HttpMethod × Text) → HttpMethod
first_method test [] = invalid_method
first_method test (row ∷ rows) =
    let rest = first_method test rows in if test row.1 then row.0 else rest

-- `strcmp` sees the part before the first NUL byte.
unfoldable pub string_to_http_method : Text → HttpMethod
unfolding first_method method_map same_text c_str
string_to_http_method m = first_method (λ s. same_text s (c_str m)) method_map

-- `strncmp` as long as the method.
unfoldable pub chars_to_http_method : Text → HttpMethod
unfolding first_method method_map is_prefix
chars_to_http_method m = first_method (λ s. is_prefix s m) method_map

-- The message of a status, by its code.
unfoldable pub message_at : ℕ → List (ℕ × Text) → Text
message_at code [] = codes "<unknown>"
message_at code (row ∷ rows) =
    let rest = message_at code rows in if row.0 == code then row.1 else rest

unfoldable pub http_status_to_string : ℕ → Text
unfolding message_at status_map
http_status_to_string code = message_at code status_map
