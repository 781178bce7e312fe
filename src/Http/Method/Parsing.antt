-- ===== src/Http/Method/Parsing.antt =====
-- server/http/http.cc: the theorems on the texts of methods.
use zjh_server.Base.{
  ◌≡◌, ◌≢◌, refl, sym, ap, ◌∙◌, ◌↔◌, inl, inr, List, [], ◌∷◌, ◌++◌, Bool, true, Bool-cases,
}
use zjh_server.Base.Text.{Text, same_text, is_prefix, c_str, same_text→≡, is_prefix-split}
use zjh_server.Http.Method.{
  HttpMethod, delete, get_method, head, post, put_method, connect, options, trace, copy, lock,
  mkcol, move, propfind, proppatch, search_method, unlock, bind, rebind, unbind, acl, report,
  mkactivity, checkout, merge, msearch, notify, subscribe, unsubscribe, patch, purge, mkcalendar,
  link, unlink, source, invalid_method, method_map, first_method, http_method_to_string,
  string_to_http_method, chars_to_http_method,
}

pub string_to_http_method-http_method_to_string :
    (m : HttpMethod) → string_to_http_method (http_method_to_string m) ≡ m
unfolding string_to_http_method http_method_to_string
string_to_http_method-http_method_to_string delete = refl
string_to_http_method-http_method_to_string get_method = refl
string_to_http_method-http_method_to_string head = refl
string_to_http_method-http_method_to_string post = refl
string_to_http_method-http_method_to_string put_method = refl
string_to_http_method-http_method_to_string connect = refl
string_to_http_method-http_method_to_string options = refl
string_to_http_method-http_method_to_string trace = refl
string_to_http_method-http_method_to_string copy = refl
string_to_http_method-http_method_to_string lock = refl
string_to_http_method-http_method_to_string mkcol = refl
string_to_http_method-http_method_to_string move = refl
string_to_http_method-http_method_to_string propfind = refl
string_to_http_method-http_method_to_string proppatch = refl
string_to_http_method-http_method_to_string search_method = refl
string_to_http_method-http_method_to_string unlock = refl
string_to_http_method-http_method_to_string bind = refl
string_to_http_method-http_method_to_string rebind = refl
string_to_http_method-http_method_to_string unbind = refl
string_to_http_method-http_method_to_string acl = refl
string_to_http_method-http_method_to_string report = refl
string_to_http_method-http_method_to_string mkactivity = refl
string_to_http_method-http_method_to_string checkout = refl
string_to_http_method-http_method_to_string merge = refl
string_to_http_method-http_method_to_string msearch = refl
string_to_http_method-http_method_to_string notify = refl
string_to_http_method-http_method_to_string subscribe = refl
string_to_http_method-http_method_to_string unsubscribe = refl
string_to_http_method-http_method_to_string patch = refl
string_to_http_method-http_method_to_string purge = refl
string_to_http_method-http_method_to_string mkcalendar = refl
string_to_http_method-http_method_to_string link = refl
string_to_http_method-http_method_to_string unlink = refl
string_to_http_method-http_method_to_string source = refl
string_to_http_method-http_method_to_string invalid_method = refl

-- Each method before any other bytes.
read_prefix :
    (m : HttpMethod) (rest : Text)
    → m ≢ invalid_method
    → chars_to_http_method (http_method_to_string m ++ rest) ≡ m
unfolding chars_to_http_method http_method_to_string
read_prefix delete rest h = refl
read_prefix get_method rest h = refl
read_prefix head rest h = refl
read_prefix post rest h = refl
read_prefix put_method rest h = refl
read_prefix connect rest h = refl
read_prefix options rest h = refl
read_prefix trace rest h = refl
read_prefix copy rest h = refl
read_prefix lock rest h = refl
read_prefix mkcol rest h = refl
read_prefix move rest h = refl
read_prefix propfind rest h = refl
read_prefix proppatch rest h = refl
read_prefix search_method rest h = refl
read_prefix unlock rest h = refl
read_prefix bind rest h = refl
read_prefix rebind rest h = refl
read_prefix unbind rest h = refl
read_prefix acl rest h = refl
read_prefix report rest h = refl
read_prefix mkactivity rest h = refl
read_prefix checkout rest h = refl
read_prefix merge rest h = refl
read_prefix msearch rest h = refl
read_prefix notify rest h = refl
read_prefix subscribe rest h = refl
read_prefix unsubscribe rest h = refl
read_prefix patch rest h = refl
read_prefix purge rest h = refl
read_prefix mkcalendar rest h = refl
read_prefix link rest h = refl
read_prefix unlink rest h = refl
read_prefix source rest h = refl
read_prefix invalid_method rest h = absurd (h refl)

parse_printed :
    (m : HttpMethod)
    → m ≢ invalid_method
    → first_method (λ s. same_text s (http_method_to_string m)) method_map ≡ m
unfolding first_method method_map same_text http_method_to_string
parse_printed delete h = refl
parse_printed get_method h = refl
parse_printed head h = refl
parse_printed post h = refl
parse_printed put_method h = refl
parse_printed connect h = refl
parse_printed options h = refl
parse_printed trace h = refl
parse_printed copy h = refl
parse_printed lock h = refl
parse_printed mkcol h = refl
parse_printed move h = refl
parse_printed propfind h = refl
parse_printed proppatch h = refl
parse_printed search_method h = refl
parse_printed unlock h = refl
parse_printed bind h = refl
parse_printed rebind h = refl
parse_printed unbind h = refl
parse_printed acl h = refl
parse_printed report h = refl
parse_printed mkactivity h = refl
parse_printed checkout h = refl
parse_printed merge h = refl
parse_printed msearch h = refl
parse_printed notify h = refl
parse_printed subscribe h = refl
parse_printed unsubscribe h = refl
parse_printed patch h = refl
parse_printed purge h = refl
parse_printed mkcalendar h = refl
parse_printed link h = refl
parse_printed unlink h = refl
parse_printed source h = refl
parse_printed invalid_method h = absurd (h refl)

-- Every row holds the text that its method is printed as.
AllNamed : List (HttpMethod × Text) → Type 0
AllNamed [] = true ≡ true
AllNamed (row ∷ rows) = (http_method_to_string row.0 ≡ row.1) × AllNamed rows

method_map-AllNamed : AllNamed method_map
unfolding AllNamed method_map http_method_to_string
method_map-AllNamed = (
  refl,
  (
    refl,
    (
      refl,
      (
        refl,
        (
          refl,
          (
            refl,
            (
              refl,
              (
                refl,
                (
                  refl,
                  (
                    refl,
                    (
                      refl,
                      (
                        refl,
                        (
                          refl,
                          (
                            refl,
                            (
                              refl,
                              (
                                refl,
                                (
                                  refl,
                                  (
                                    refl,
                                    (
                                      refl,
                                      (
                                        refl,
                                        (
                                          refl,
                                          (
                                            refl,
                                            (
                                              refl,
                                              (
                                                refl,
                                                (
                                                  refl,
                                                  (
                                                    refl,
                                                    (
                                                      refl,
                                                      (
                                                        refl,
                                                        (
                                                          refl,
                                                          (
                                                            refl,
                                                            (refl, (refl, (refl, (refl, refl)))),
                                                          ),
                                                        ),
                                                      ),
                                                    ),
                                                  ),
                                                ),
                                              ),
                                            ),
                                          ),
                                        ),
                                      ),
                                    ),
                                  ),
                                ),
                              ),
                            ),
                          ),
                        ),
                      ),
                    ),
                  ),
                ),
              ),
            ),
          ),
        ),
      ),
    ),
  ),
)

-- The method that is found passed the test.
first_method_found :
    (test : Text → Bool) (rows : List (HttpMethod × Text)) (m : HttpMethod)
    → AllNamed rows
    → m ≢ invalid_method
    → first_method test rows ≡ m
    → test (http_method_to_string m) ≡ true
unfolding first_method AllNamed
first_method_found test [] m named h e = absurd (h (sym e))
first_method_found test (row ∷ rows) m named h e = elim (Bool-cases (test row.1)) [
  | inl t ↦
      let k : row.0 ≡ m = sym (rw t refl) ∙ e in
      ap (λ n. test (http_method_to_string n)) (sym k) ∙ ap test named.0 ∙ t
  | inr t ↦ first_method_found test rows m named.1 h (sym (rw t refl) ∙ e)
]

-- For each method but the invalid one, `StringToHttpMethod` gives it for exactly the strings
-- that are its text up to a NUL byte, and `CharsToHttpMethod` for exactly those that its text
-- begins.
pub method_reading :
    (m : HttpMethod) (s : Text)
    → m ≢ invalid_method
    → ((string_to_http_method s ≡ m) ↔ (http_method_to_string m ≡ c_str s))
      × ((chars_to_http_method s ≡ m) ↔ (is_prefix (http_method_to_string m) s ≡ true))
unfolding string_to_http_method chars_to_http_method
method_reading m s h = (
  (
    λ e.
        same_text→≡ (http_method_to_string m) (c_str s)
          (first_method_found (λ t. same_text t (c_str s)) method_map m method_map-AllNamed h e),
    λ e. ap (λ t. first_method (λ u. same_text u t) method_map) (sym e) ∙ parse_printed m h,
  ),
  (
    λ e. first_method_found (λ t. is_prefix t s) method_map m method_map-AllNamed h e,
    λ e.
        let rest = is_prefix-split (http_method_to_string m) s e in
        ap chars_to_http_method rest.1 ∙ read_prefix m rest.0 h,
  ),
)
