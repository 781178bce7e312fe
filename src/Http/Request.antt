-- ===== src/Http/Request.antt =====
-- server/http/http.h and http.cc: HttpRequest, its fields, headers, parameters and cookies. A status
-- is its code. The constructor leaves the status as memory
-- has it, which is an argument. `cast` stands for `lexical_cast`, which gives a value or throws.
pub mod Laws
use zjh_server.Base.{ℕ, ◌/◌, [], Bool, true, false, Option, none, some}
use zjh_server.Base.Text.{Text, codes}
use zjh_server.Base.Text.Decimal.{}
use zjh_server.Http.Method.{HttpMethod, get_method}
use zjh_server.Http.MapType.{MapType, find_key, assign_key, erase_key, value_or}

pub record HttpRequest : Type 0 where
  pub method : HttpMethod
  pub status : ℕ
  pub version : ℕ
  pub close : Bool
  pub path : Text
  pub query : Text
  pub fragment : Text
  pub body : Text
  pub headers : MapType
  pub params : MapType
  pub cookies : MapType

unfoldable pub new_request : ℕ → ℕ → Bool → HttpRequest
new_request status version close = record {
  method = get_method;
  status = status;
  version = version;
  close = close;
  path = codes "/";
  query = [];
  fragment = [];
  body = [];
  headers = [];
  params = [];
  cookies = [];
}

unfoldable pub set_method : HttpMethod → HttpRequest → HttpRequest
set_method v r = record r { method = v }

unfoldable pub set_request_status : ℕ → HttpRequest → HttpRequest
set_request_status v r = record r { status = v }

unfoldable pub set_request_version : ℕ → HttpRequest → HttpRequest
set_request_version v r = record r { version = v }

unfoldable pub set_path : Text → HttpRequest → HttpRequest
set_path v r = record r { path = v }

unfoldable pub set_query : Text → HttpRequest → HttpRequest
set_query v r = record r { query = v }

unfoldable pub set_fragment : Text → HttpRequest → HttpRequest
set_fragment v r = record r { fragment = v }

unfoldable pub set_request_body : Text → HttpRequest → HttpRequest
set_request_body v r = record r { body = v }

unfoldable pub set_headers : MapType → HttpRequest → HttpRequest
set_headers v r = record r { headers = v }

unfoldable pub set_params : MapType → HttpRequest → HttpRequest
set_params v r = record r { params = v }

unfoldable pub set_cookies : MapType → HttpRequest → HttpRequest
set_cookies v r = record r { cookies = v }

unfoldable pub set_request_close : Bool → HttpRequest → HttpRequest
set_request_close v r = record r { close = v }

unfoldable pub get_header : Text → Text → HttpRequest → Text
unfolding find_key value_or
get_header key def r = value_or def (find_key key r.headers)

unfoldable pub get_param : Text → Text → HttpRequest → Text
unfolding find_key value_or
get_param key def r = value_or def (find_key key r.params)

unfoldable pub get_cookie : Text → Text → HttpRequest → Text
unfolding find_key value_or
get_cookie key def r = value_or def (find_key key r.cookies)

unfoldable pub set_header : Text → Text → HttpRequest → HttpRequest
unfolding assign_key
set_header key val r = record r { headers = assign_key key val r.headers }

unfoldable pub set_param : Text → Text → HttpRequest → HttpRequest
unfolding assign_key
set_param key val r = record r { params = assign_key key val r.params }

unfoldable pub set_cookie : Text → Text → HttpRequest → HttpRequest
unfolding assign_key
set_cookie key val r = record r { cookies = assign_key key val r.cookies }

unfoldable pub del_header : Text → HttpRequest → HttpRequest
unfolding erase_key
del_header key r = record r { headers = erase_key key r.headers }

unfoldable pub del_param : Text → HttpRequest → HttpRequest
unfolding erase_key
del_param key r = record r { params = erase_key key r.params }

unfoldable pub del_cookie : Text → HttpRequest → HttpRequest
unfolding erase_key
del_cookie key r = record r { cookies = erase_key key r.cookies }

-- Whether a name is there, and what `*val` holds afterwards; `none` is a null pointer.
unfoldable pub has_value : Text → MapType → Option Text → Bool × Option Text
unfolding find_key
has_value key m val = answer (find_key key m) val
  where
    answer : Option Text → Option Text → Bool × Option Text
    answer none val = (false, val)
    answer (some v) none = (true, none)
    answer (some v) (some old) = (true, some v)

unfoldable pub has_header : Text → Option Text → HttpRequest → Bool × Option Text
unfolding has_value
has_header key val r = has_value key r.headers val

unfoldable pub has_param : Text → Option Text → HttpRequest → Bool × Option Text
unfolding has_value
has_param key val r = has_value key r.params val

unfoldable pub has_cookie : Text → Option Text → HttpRequest → Bool × Option Text
unfolding has_value
has_cookie key val r = has_value key r.cookies val

module _ {ℓ} {T : Type ℓ} where
  -- The value and whether it was there and could be read as a T.
  unfoldable pub check_get_as : (Text → Option T) → MapType → Text → T → Bool × T
  unfolding find_key
  check_get_as cast m key def = found (find_key key m)
    where
      read : Option T → Bool × T
      read none = (false, def)
      read (some val) = (true, val)

      found : Option Text → Bool × T
      found none = (false, def)
      found (some s) = read (cast s)

  unfoldable pub get_as : (Text → Option T) → MapType → Text → T → T
  unfolding find_key
  get_as cast m key def = found (find_key key m)
    where
      read : Option T → T
      read none = def
      read (some val) = val

      found : Option Text → T
      found none = def
      found (some s) = read (cast s)

  unfoldable pub check_get_header_as : (Text → Option T) → Text → T → HttpRequest → Bool × T
  unfolding check_get_as
  check_get_header_as cast key def r = check_get_as cast r.headers key def

  unfoldable pub get_header_as : (Text → Option T) → Text → T → HttpRequest → T
  unfolding get_as
  get_header_as cast key def r = get_as cast r.headers key def

  -- The four below read the headers.
  unfoldable pub check_get_param_as : (Text → Option T) → Text → T → HttpRequest → Bool × T
  unfolding check_get_as
  check_get_param_as cast key def r = check_get_as cast r.headers key def

  unfoldable pub get_param_as : (Text → Option T) → Text → T → HttpRequest → T
  unfolding get_as
  get_param_as cast key def r = get_as cast r.headers key def

  unfoldable pub check_get_cookie_as : (Text → Option T) → Text → T → HttpRequest → Bool × T
  unfolding check_get_as
  check_get_cookie_as cast key def r = check_get_as cast r.headers key def

  unfoldable pub get_cookie_as : (Text → Option T) → Text → T → HttpRequest → T
  unfolding get_as
  get_cookie_as cast key def r = get_as cast r.headers key def
