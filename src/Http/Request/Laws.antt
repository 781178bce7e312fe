-- ===== src/Http/Request/Laws.antt =====
-- server/http/http.cc: the theorems on the headers, parameters and cookies of a request.
use zjh_server.Base.{ℕ, ◌≡◌, refl, ap, ◌∙◌, if◌then◌else◌, Bool, true, false, Option, none, some}
use zjh_server.Base.Text.{Text}
use zjh_server.Http.Method.{HttpMethod}
use zjh_server.Http.MapType.{MapType, find_key, assign_key, erase_key, value_or, same_name}
use zjh_server.Http.MapType.Laws.{
  IsSorted, find_key-assign_key, find_key-erase_key, assign_key-IsSorted, erase_key-IsSorted,
}
use zjh_server.Http.Request.{
  HttpRequest, new_request, get_header, get_param, get_cookie, set_header, set_param, set_cookie,
  del_header, del_param, del_cookie, set_method, set_request_status, set_request_version, set_path,
  set_query, set_fragment, set_request_body, set_headers, set_params, set_cookies,
  set_request_close,
}

-- The requests that the operations make; a map that is handed over is in its order.
pub data Built : HttpRequest → Type 0 where
  built_new : (status version : ℕ) (close : Bool) → Built (new_request status version close)
  built_method : (v : HttpMethod) (r : HttpRequest) → Built r → Built (set_method v r)
  built_status : (v : ℕ) (r : HttpRequest) → Built r → Built (set_request_status v r)
  built_version : (v : ℕ) (r : HttpRequest) → Built r → Built (set_request_version v r)
  built_close : (v : Bool) (r : HttpRequest) → Built r → Built (set_request_close v r)
  built_path : (v : Text) (r : HttpRequest) → Built r → Built (set_path v r)
  built_query : (v : Text) (r : HttpRequest) → Built r → Built (set_query v r)
  built_fragment : (v : Text) (r : HttpRequest) → Built r → Built (set_fragment v r)
  built_body : (v : Text) (r : HttpRequest) → Built r → Built (set_request_body v r)
  built_headers : (v : MapType) (r : HttpRequest) → IsSorted v → Built r → Built (set_headers v r)
  built_params : (v : MapType) (r : HttpRequest) → IsSorted v → Built r → Built (set_params v r)
  built_cookies : (v : MapType) (r : HttpRequest) → IsSorted v → Built r → Built (set_cookies v r)
  built_set_header : (k v : Text) (r : HttpRequest) → Built r → Built (set_header k v r)
  built_set_param : (k v : Text) (r : HttpRequest) → Built r → Built (set_param k v r)
  built_set_cookie : (k v : Text) (r : HttpRequest) → Built r → Built (set_cookie k v r)
  built_del_header : (k : Text) (r : HttpRequest) → Built r → Built (del_header k r)
  built_del_param : (k : Text) (r : HttpRequest) → Built r → Built (del_param k r)
  built_del_cookie : (k : Text) (r : HttpRequest) → Built r → Built (del_cookie k r)

-- The three maps are in their order.
IsValid : HttpRequest → Type 0
IsValid r = IsSorted r.headers × IsSorted r.params × IsSorted r.cookies

Built-IsValid : (r : HttpRequest) → Built r → IsValid r
unfolding IsValid IsSorted new_request set_method set_request_status set_request_version set_path
    set_query set_fragment set_request_body set_headers set_params set_cookies set_request_close
    set_header set_param set_cookie del_header del_param del_cookie
Built-IsValid _ (built_new status version close) = (refl, refl, refl)
Built-IsValid _ (built_method v r b) = Built-IsValid r b
Built-IsValid _ (built_status v r b) = Built-IsValid r b
Built-IsValid _ (built_version v r b) = Built-IsValid r b
Built-IsValid _ (built_close v r b) = Built-IsValid r b
Built-IsValid _ (built_path v r b) = Built-IsValid r b
Built-IsValid _ (built_query v r b) = Built-IsValid r b
Built-IsValid _ (built_fragment v r b) = Built-IsValid r b
Built-IsValid _ (built_body v r b) = Built-IsValid r b
Built-IsValid _ (built_headers v r s b) = let p = Built-IsValid r b in (s, p.1, p.2)
Built-IsValid _ (built_params v r s b) = let p = Built-IsValid r b in (p.0, s, p.2)
Built-IsValid _ (built_cookies v r s b) = let p = Built-IsValid r b in (p.0, p.1, s)
Built-IsValid _ (built_set_header k v r b) =
    let p = Built-IsValid r b in (assign_key-IsSorted k v r.headers p.0, p.1, p.2)
Built-IsValid _ (built_set_param k v r b) =
    let p = Built-IsValid r b in (p.0, assign_key-IsSorted k v r.params p.1, p.2)
Built-IsValid _ (built_set_cookie k v r b) =
    let p = Built-IsValid r b in (p.0, p.1, assign_key-IsSorted k v r.cookies p.2)
Built-IsValid _ (built_del_header k r b) =
    let p = Built-IsValid r b in (erase_key-IsSorted k r.headers p.0, p.1, p.2)
Built-IsValid _ (built_del_param k r b) =
    let p = Built-IsValid r b in (p.0, erase_key-IsSorted k r.params p.1, p.2)
Built-IsValid _ (built_del_cookie k r b) =
    let p = Built-IsValid r b in (p.0, p.1, erase_key-IsSorted k r.cookies p.2)

value_or-if :
    (def : Text) (b : Bool) (x y : Option Text)
    → value_or def (if b then x else y) ≡ (if b then value_or def x else value_or def y)
value_or-if def true x y = refl
value_or-if def false x y = refl

value_or-assign_key :
    (j def k v : Text) (m : MapType)
    → value_or def (find_key j (assign_key k v m))
      ≡ (if same_name j k then v else value_or def (find_key j m))
unfolding value_or
value_or-assign_key j def k v m =
    ap (value_or def) (find_key-assign_key j k v m)
    ∙ value_or-if def (same_name j k) (some v) (find_key j m)

value_or-erase_key :
    (j def k : Text) (m : MapType)
    → IsSorted m
    → value_or def (find_key j (erase_key k m))
      ≡ (if same_name j k then def else value_or def (find_key j m))
unfolding value_or
value_or-erase_key j def k m s =
    ap (value_or def) (find_key-erase_key j k m s)
    ∙ value_or-if def (same_name j k) none (find_key j m)

-- On any request that the operations build from a new one, handing over only maps in their
-- order, setting a header, parameter or cookie changes what is found for exactly the names
-- that compare alike, to the value, and deleting it to the default.
pub request_maps_lem :
    (j def k v : Text) (r : HttpRequest)
    → Built r
    → (get_header j def (set_header k v r) ≡ (if same_name j k then v else get_header j def r))
      × (get_header j def (del_header k r) ≡ (if same_name j k then def else get_header j def r))
      × (get_param j def (set_param k v r) ≡ (if same_name j k then v else get_param j def r))
      × (get_param j def (del_param k r) ≡ (if same_name j k then def else get_param j def r))
      × (get_cookie j def (set_cookie k v r) ≡ (if same_name j k then v else get_cookie j def r))
      × (get_cookie j def (del_cookie k r) ≡ (if same_name j k then def else get_cookie j def r))
unfolding IsValid get_header get_param get_cookie set_header set_param set_cookie del_header
    del_param del_cookie
request_maps_lem j def k v r b =
    let s = Built-IsValid r b in
    (
      value_or-assign_key j def k v r.headers,
      value_or-erase_key j def k r.headers s.0,
      value_or-assign_key j def k v r.params,
      value_or-erase_key j def k r.params s.1,
      value_or-assign_key j def k v r.cookies,
      value_or-erase_key j def k r.cookies s.2,
    )
