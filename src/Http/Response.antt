-- ===== src/Http/Response.antt =====
-- server/http/http.h and http.cc: HttpResponse. A status is its code. `cast` stands for `lexical_cast`, which gives a value or throws.
use zjh_server.Base.{ℕ, [], Bool, Option}
use zjh_server.Base.Text.{Text}
use zjh_server.Base.Text.Decimal.{}
use zjh_server.Http.Method.{}
use zjh_server.Http.MapType.{MapType, find_key, assign_key, erase_key, value_or}
use zjh_server.Http.Request.{check_get_as, get_as}

pub record HttpResponse : Type 0 where
  pub status : ℕ
  pub version : ℕ
  pub close : Bool
  pub body : Text
  pub reason : Text
  pub headers : MapType

unfoldable pub new_response : ℕ → Bool → HttpResponse
new_response version close = record {
  status = 200;
  version = version;
  close = close;
  body = [];
  reason = [];
  headers = [];
}

unfoldable pub get_response_header : Text → Text → HttpResponse → Text
unfolding find_key value_or
get_response_header key def r = value_or def (find_key key r.headers)

unfoldable pub set_response_header : Text → Text → HttpResponse → HttpResponse
unfolding assign_key
set_response_header key val r = record r { headers = assign_key key val r.headers }

unfoldable pub del_response_header : Text → HttpResponse → HttpResponse
unfolding erase_key
del_response_header key r = record r { headers = erase_key key r.headers }

unfoldable pub set_status : ℕ → HttpResponse → HttpResponse
set_status v r = record r { status = v }

unfoldable pub set_body : Text → HttpResponse → HttpResponse
set_body v r = record r { body = v }

unfoldable pub set_reason : Text → HttpResponse → HttpResponse
set_reason v r = record r { reason = v }

unfoldable pub set_close : Bool → HttpResponse → HttpResponse
set_close v r = record r { close = v }

unfoldable pub set_response_version : ℕ → HttpResponse → HttpResponse
set_response_version v r = record r { version = v }

unfoldable pub set_response_headers : MapType → HttpResponse → HttpResponse
set_response_headers v r = record r { headers = v }

module _ {ℓ} {T : Type ℓ} where
  unfoldable pub check_get_response_as : (Text → Option T) → Text → T → HttpResponse → Bool × T
  unfolding check_get_as
  check_get_response_as cast key def r = check_get_as cast r.headers key def

  unfoldable pub get_response_as : (Text → Option T) → Text → T → HttpResponse → T
  unfolding get_as
  get_response_as cast key def r = get_as cast r.headers key def
