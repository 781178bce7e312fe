-- ===== src/Http/Parser.antt =====
-- server/http/http_parser.cc: the callbacks that the generated parsers call, and what they make of
-- the message. A callback that gets a pointer has the bytes from there to the end of the buffer.
-- The generated parser is a parameter: its state, the bytes it takes and the callbacks it makes.
use zjh_server.Base.{
  ℕ, List, [], ◌∷◌, ◌==◌, if◌then◌else◌, Bool, false, true, not, ◌||◌, Option, take, drop,
}
use zjh_server.Base.Text.{Text, codes, c_str, same_text}
use zjh_server.Http.Method.{HttpMethod, method_number, chars_to_http_method}
use zjh_server.Http.Request.{
  HttpRequest, new_request, set_method, set_path, set_query, set_fragment, set_request_version,
  set_header, get_header_as,
}
use zjh_server.Http.Response.{
  HttpResponse, set_status, set_reason, set_response_version, set_response_header,
}

pub data RequestCallback : Type 0 where
  request_method : Text → RequestCallback
  request_uri : RequestCallback
  request_fragment : Text → ℕ → RequestCallback
  request_path : Text → ℕ → RequestCallback
  request_query : Text → ℕ → RequestCallback
  request_version : Text → ℕ → RequestCallback
  request_header_done : RequestCallback
  request_field : Text → Text → RequestCallback

pub data ResponseCallback : Type 0 where
  response_reason : Text → ℕ → ResponseCallback
  response_status : Text → ResponseCallback
  response_chunk : ResponseCallback
  response_version : Text → ℕ → ResponseCallback
  response_header_done : ResponseCallback
  response_last_chunk : ResponseCallback
  response_field : Text → Text → ResponseCallback

-- `strncmp(at, text, length) == 0`.
unfoldable pub begins_alike : ℕ → Text → Text → Bool
unfolding same_text c_str
begins_alike length at text = same_text (c_str (take length at)) (c_str (take length text))

abbrev pub is_empty_text : Text → Bool
is_empty_text [] = true
is_empty_text (b ∷ bs) = false

-- A message under construction and the error of its parser.
unfoldable pub on_method : HttpMethod → HttpRequest × ℕ → HttpRequest × ℕ
unfolding method_number set_method
on_method m (r, error) = if method_number m == 34 then (r, 1000) else (set_method m r, error)

unfoldable pub on_request_version : Text → ℕ → HttpRequest × ℕ → HttpRequest × ℕ
unfolding begins_alike set_request_version
on_request_version at length (r, error) =
    if begins_alike length at (codes "HTTP/1.1")
    then (set_request_version 17 r, error)
    else (if begins_alike length at (codes "HTTP/1.0")
        then (set_request_version 16 r, error)
        else (r, 1001))

unfoldable pub on_request : RequestCallback → HttpRequest × ℕ → HttpRequest × ℕ
unfolding chars_to_http_method on_method on_request_version set_fragment set_path set_query
    set_header
on_request (request_method at) p = on_method (chars_to_http_method at) p
on_request request_uri p = p
on_request (request_fragment at length) (r, error) = (set_fragment (take length at) r, error)
on_request (request_path at length) (r, error) = (set_path (take length at) r, error)
on_request (request_query at length) (r, error) = (set_query (take length at) r, error)
on_request (request_version at length) p = on_request_version at length p
on_request request_header_done p = p
on_request (request_field field value) (r, error) =
    if is_empty_text field then (r, error) else (set_header field value r, error)

unfoldable pub on_requests : List RequestCallback → HttpRequest × ℕ → HttpRequest × ℕ
unfolding on_request
on_requests [] p = p
on_requests (c ∷ cs) p = on_requests cs (on_request c p)

unfoldable pub on_response_version : Text → ℕ → HttpResponse × ℕ → HttpResponse × ℕ
unfolding begins_alike set_response_version
on_response_version at length (r, error) =
    if begins_alike length at (codes "HTTP/1.1")
    then (set_response_version 17 r, error)
    else (if begins_alike length at (codes "HTTP/1.0")
        then (set_response_version 16 r, error)
        else (r, 1001))

-- `atoi` of the C library is a parameter.
unfoldable pub on_response : (Text → ℕ) → ResponseCallback → HttpResponse × ℕ → HttpResponse × ℕ
unfolding on_response_version set_reason set_status set_response_header
on_response atoi (response_reason at length) (r, error) = (set_reason (take length at) r, error)
on_response atoi (response_status at) (r, error) = (set_status (atoi at) r, error)
on_response atoi response_chunk p = p
on_response atoi (response_version at length) p = on_response_version at length p
on_response atoi response_header_done p = p
on_response atoi response_last_chunk p = p
on_response atoi (response_field field value) (r, error) =
    if is_empty_text field then (r, error) else (set_response_header field value r, error)

-- The generated parser: its start, a run over a buffer with the bytes taken and the callbacks made,
-- and its two tests.
pub record Machine (G : Type 0) : Type 0 where
  pub start : G
  pub run : G → Text → G × ℕ × List RequestCallback
  pub finished : G → Bool
  pub in_error : G → Bool

pub record HttpRequestParser (G : Type 0) : Type 0 where
  pub gen : G
  pub message : HttpRequest
  pub error : ℕ

module _ {G : Type 0} (machine : Machine G) where
  -- The request's status is what memory had.
  unfoldable pub new_parser : ℕ → HttpRequestParser G
  unfolding new_request
  new_parser status = record {
    gen = machine.start;
    message = new_request status 17 true;
    error = 0;
  }

  -- The parser afterwards and the bytes that are left, moved to the front.
  unfoldable pub execute : HttpRequestParser G → Text → HttpRequestParser G × Text
  unfolding on_requests
  execute p buffer =
      let r = machine.run p.gen buffer in
      let m = on_requests r.2 (p.message, p.error) in
      (record { gen = r.0; message = m.0; error = m.1 }, drop r.1 buffer)

  unfoldable pub is_finished : HttpRequestParser G → Bool
  is_finished p = machine.finished p.gen

  unfoldable pub has_error : HttpRequestParser G → Bool
  has_error p = not (p.error == 0) || machine.in_error p.gen

  unfoldable pub get_content_length : (Text → Option ℕ) → HttpRequestParser G → ℕ
  unfolding get_header_as
  get_content_length to_u64 p = get_header_as to_u64 (codes "content-length") 0 p.message
