-- ===== src/Http/Examples.antt =====
-- server/http/http.cc: the theorems on concrete messages.
use zjh_server.Base.{
  ◌≡◌, ◌≢◌, ◌↔◌, refl, [], ◌∷◌, ◌++◌, if◌then◌else◌, true, false, some, ap, arith,
}
use zjh_server.Base.Text.{Text, codes, is_prefix, c_str}
use zjh_server.Base.Text.Decimal.{has_byte}
use zjh_server.Http.Method.{
  post, invalid_method, method_number, string_to_http_method, chars_to_http_method,
  http_method_to_string,
}
use zjh_server.Http.Method.Parsing.{method_reading}
use zjh_server.Http.MapType.{same_name}
use zjh_server.Http.Request.{
  HttpRequest, new_request, get_header, get_param, get_cookie, set_header, set_param, set_cookie,
  del_header, del_param, del_cookie,
}
use zjh_server.Http.Request.Laws.{built_new, built_set_header, request_maps_lem}
use zjh_server.Http.Response.{HttpResponse}
use zjh_server.Http.Dump.{request_line, status_line, dump_request, dump_response}
use zjh_server.Http.Dump.Reader.{read_head}
use zjh_server.Http.Dump.Framing.{AllClean, lines_of, length_lines}
use zjh_server.Http.Dump.Messages.{connection_says, dump_request_lem, dump_response_lem}

post_is_valid : post ≢ invalid_method
unfolding method_number
post_is_valid e = absurd (omega (arith, number e))
  where
    number : post ≡ invalid_method → method_number post ≡ method_number invalid_method
    number e = ap method_number e

method_reading_example :
    ((string_to_http_method (codes "POST") ≡ post)
      ↔ (http_method_to_string post ≡ c_str (codes "POST")))
    × ((chars_to_http_method (codes "POST") ≡ post)
        ↔ (is_prefix (http_method_to_string post) (codes "POST") ≡ true))
method_reading_example = method_reading post (codes "POST") post_is_valid

abbrev fresh : HttpRequest
fresh = new_request 0 17 true

abbrev host : Text
host = codes "Host"

abbrev with_host : HttpRequest
with_host = set_header host (codes "a.b") fresh

request_maps_example :
    (get_header (codes "host") [] (set_header host (codes "c") with_host) ≡ (
      if same_name (codes "host") host then codes "c" else get_header (codes "host") [] with_host))
    × (get_header (codes "host") [] (del_header host with_host)
        ≡ (if same_name (codes "host") host then [] else get_header (codes "host") [] with_host))
    × (get_param (codes "host") [] (set_param host (codes "c") with_host) ≡ (
        if same_name (codes "host") host then codes "c" else get_param (codes "host") [] with_host))
    × (get_param (codes "host") [] (del_param host with_host)
        ≡ (if same_name (codes "host") host then [] else get_param (codes "host") [] with_host))
    × (get_cookie (codes "host") [] (set_cookie host (codes "c") with_host) ≡ (
        if same_name (codes "host") host
        then codes "c"
        else get_cookie (codes "host") [] with_host))
    × (get_cookie (codes "host") [] (del_cookie host with_host)
        ≡ (if same_name (codes "host") host then [] else get_cookie (codes "host") [] with_host))
request_maps_example =
    request_maps_lem (codes "host") [] host (codes "c") with_host
      (built_set_header host (codes "a.b") fresh (built_new 0 17 true))

abbrev question : HttpRequest
question = record {
  method = post;
  status = 0;
  version = 17;
  close = false;
  path = codes "/a";
  query = codes "b=1";
  fragment = [];
  body = codes "hello";
  headers = (host, codes "a.b") ∷ [];
  params = [];
  cookies = [];
}

clean_path : has_byte 13 (codes "/a") ≡ false
unfolding has_byte
clean_path = refl

clean_query : has_byte 13 (codes "b=1") ≡ false
unfolding has_byte
clean_query = refl

clean_fragment : has_byte 13 [] ≡ false
unfolding has_byte
clean_fragment = refl

clean_headers : AllClean ((host, codes "a.b") ∷ [])
unfolding AllClean has_byte
clean_headers = ((refl, refl), refl)

dump_request_example :
    read_head false [] [] (dump_request question ++ codes "GET")
    ≡ some (
      request_line question
          ∷ connection_says false
          ∷ (lines_of ((host, codes "a.b") ∷ []) ++ length_lines (codes "hello")),
      codes "hello" ++ codes "GET",
    )
dump_request_example =
    dump_request_lem question (codes "GET") clean_path clean_query clean_fragment clean_headers

abbrev reply : HttpResponse
reply = record {
  status = 404;
  version = 17;
  close = true;
  body = codes "gone";
  reason = [];
  headers = (host, codes "a.b") ∷ [];
}

dump_response_example :
    read_head false [] [] (dump_response reply ++ codes "HTTP")
    ≡ some (
      status_line reply
          ∷ (lines_of ((host, codes "a.b") ∷ [])
              ++ (connection_says true ∷ length_lines (codes "gone"))),
      codes "gone" ++ codes "HTTP",
    )
dump_response_example = dump_response_lem reply (codes "HTTP") clean_fragment clean_headers
