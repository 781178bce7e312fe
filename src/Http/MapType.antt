-- ===== src/Http/MapType.antt =====
-- server/http/http.h: MapType, the `std::map` of names and values that orders names by
-- CaseInsensitiveLess, as the list of its entries in order. A lookup is `lower_bound` and one more
-- comparison.
pub mod Laws
use zjh_server.Base.{List, [], ◌∷◌, if◌then◌else◌, Bool, ◌&&◌, not, Option, none, some}
use zjh_server.Base.Text.{Text, caseless, less_text}

-- `CaseInsensitiveLess`.
unfoldable pub less_name : Text → Text → Bool
unfolding less_text caseless
less_name lhs rhs = less_text (caseless lhs) (caseless rhs)

abbrev pub MapType : Type 0
MapType = List (Text × Text)

unfoldable pub find_key : Text → MapType → Option Text
unfolding less_name
find_key key [] = none
find_key key (e ∷ es) =
    let rest = find_key key es in
    if less_name e.0 key then rest else (if less_name key e.0 then none else some e.1)

-- `m[key] = val`: an entry that is there keeps the spelling of its name.
unfoldable pub assign_key : Text → Text → MapType → MapType
unfolding less_name
assign_key key val [] = (key, val) ∷ []
assign_key key val (e ∷ es) =
    let rest = assign_key key val es in
    if less_name e.0 key
    then e ∷ rest
    else (if less_name key e.0 then (key, val) ∷ e ∷ es else (e.0, val) ∷ es)

unfoldable pub erase_key : Text → MapType → MapType
unfolding less_name
erase_key key [] = []
erase_key key (e ∷ es) =
    let rest = erase_key key es in
    if less_name e.0 key then e ∷ rest else (if less_name key e.0 then e ∷ es else es)

-- The value of a name, or a default.
unfoldable pub value_or : Text → Option Text → Text
value_or def none = def
value_or def (some val) = val

-- Two names that the order takes for one.
unfoldable pub same_name : Text → Text → Bool
unfolding less_name
same_name a b = not (less_name a b) && not (less_name b a)
