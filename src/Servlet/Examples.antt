-- ===== src/Servlet/Examples.antt =====
-- server/http/servlet.cc: the theorems on a dispatch with one glob.
use zjh_server.Base.{◌≡◌, refl, [], ◌∷◌, if◌then◌else◌, true, false}
use zjh_server.Servlet.{Uri, same_uri, ServletDispatch, add_servlet, get_matched_servlet}
use zjh_server.Servlet.Routing.{add_servlet_lem}

abbrev root : Uri
root = 47 ∷ []

abbrev page : Uri
page = 47 ∷ 97 ∷ []

abbrev one_glob : ServletDispatch
one_glob = record { datas = (page, 5) ∷ []; globs = (root, 6) ∷ []; default_servlet = 4 }

add_servlet_example :
    get_matched_servlet (λ p u. true) root (add_servlet root 9 one_glob)
    ≡ (if same_uri root root then 9 else get_matched_servlet (λ p u. true) root one_glob)
add_servlet_example = add_servlet_lem (λ p u. true) root root 9 one_glob

different : same_uri root page ≡ false
unfolding same_uri
different = refl
