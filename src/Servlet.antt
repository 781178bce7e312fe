-- ===== src/Servlet.antt =====
-- server/http/servlet.h and servlet.cc: the table of servlets by URI. A URI is a list of bytes, a
-- servlet the number of its object, and `matches` stands for `fnmatch` of the C library.
pub mod Routing
pub mod Examples
use zjh_server.Base.{
  ℕ, ◌+◌, List, [], ◌∷◌, ◌++◌, ◌==◌, if◌then◌else◌, Bool, true, false, ◌&&◌, Option, none, some,
}

abbrev pub Uri : Type 0
Uri = List ℕ

-- `==` on strings.
unfoldable pub same_uri : Uri → Uri → Bool
same_uri [] [] = true
same_uri [] (y ∷ ys) = false
same_uri (x ∷ xs) [] = false
same_uri (x ∷ xs) (y ∷ ys) = x == y && same_uri xs ys

abbrev pub Table : Type 0
Table = List (Uri × ℕ)

pub record ServletDispatch : Type 0 where
  pub datas : Table
  pub globs : Table
  pub default_servlet : ℕ

-- The first entry of a URI.
unfoldable pub find_entry : Uri → Table → Option ℕ
unfolding same_uri
find_entry uri [] = none
find_entry uri (e ∷ es) =
    let rest = find_entry uri es in if same_uri e.0 uri then some e.1 else rest

-- The table without the first entry of a URI.
unfoldable pub erase_entry : Uri → Table → Table
unfolding same_uri
erase_entry uri [] = []
erase_entry uri (e ∷ es) =
    let rest = erase_entry uri es in if same_uri e.0 uri then es else e ∷ rest

-- `m_datas[uri] = slt` of the map.
unfoldable pub set_entry : Uri → ℕ → Table → Table
unfolding same_uri
set_entry uri slt [] = (uri, slt) ∷ []
set_entry uri slt (e ∷ es) =
    let rest = set_entry uri slt es in if same_uri e.0 uri then (e.0, slt) ∷ es else e ∷ rest

-- A dispatch whose default is the servlet that answers 404.
unfoldable pub new_dispatch : ℕ → ServletDispatch
new_dispatch not_found = record { datas = []; globs = []; default_servlet = not_found }

unfoldable pub add_servlet : Uri → ℕ → ServletDispatch → ServletDispatch
unfolding set_entry
add_servlet uri slt d = record d { datas = set_entry uri slt d.datas }

unfoldable pub add_glob_servlet : Uri → ℕ → ServletDispatch → ServletDispatch
unfolding erase_entry
add_glob_servlet uri slt d = record d { globs = erase_entry uri d.globs ++ (uri, slt) ∷ [] }

unfoldable pub del_servlet : Uri → ServletDispatch → ServletDispatch
unfolding erase_entry
del_servlet uri d = record d { datas = erase_entry uri d.datas }

unfoldable pub del_glob_servlet : Uri → ServletDispatch → ServletDispatch
unfolding erase_entry
del_glob_servlet uri d = record d { globs = erase_entry uri d.globs }

unfoldable pub set_default : ℕ → ServletDispatch → ServletDispatch
set_default slt d = record d { default_servlet = slt }

unfoldable pub get_servlet : Uri → ServletDispatch → Option ℕ
unfolding find_entry
get_servlet uri d = find_entry uri d.datas

unfoldable pub get_glob_servlet : Uri → ServletDispatch → Option ℕ
unfolding find_entry
get_glob_servlet uri d = find_entry uri d.globs

-- The first glob whose pattern matches.
unfoldable pub match_glob : (Uri → Uri → Bool) → Uri → ℕ → Table → ℕ
match_glob matches uri default [] = default
match_glob matches uri default (e ∷ es) =
    let rest = match_glob matches uri default es in if matches e.0 uri then e.1 else rest

abbrev pub or_else : Option ℕ → ℕ → ℕ
or_else none other = other
or_else (some slt) other = slt

unfoldable pub get_matched_servlet : (Uri → Uri → Bool) → Uri → ServletDispatch → ℕ
unfolding find_entry match_glob
get_matched_servlet matches uri d =
    or_else (find_entry uri d.datas) (match_glob matches uri d.default_servlet d.globs)
