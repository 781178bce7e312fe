-- ===== src/Http/MapType/Laws.antt =====
-- server/http/http.h: the theorems on a map of names and values.
use zjh_server.Base.{
  ◌≡◌, refl, ap, inl, inr, [], ◌∷◌, if◌then◌else◌, true, false, none, some, arith, Bool-cases,
}
use zjh_server.Base.Text.{
  Text, caseless, less_text, less_text_irrefl, less_text_trans, less_text_cases,
}
use zjh_server.Http.MapType.{less_name, MapType, find_key, assign_key, erase_key, same_name}

pub less_name_trans :
    (a b c : Text) → less_name a b ≡ true → less_name b c ≡ true → less_name a c ≡ true
unfolding less_name
less_name_trans a b c h k = less_text_trans (caseless a) (caseless b) (caseless c) h k

pub less_name_asym : (a b : Text) → less_name a b ≡ true → less_name b a ≡ false
unfolding less_name
less_name_asym a b h = elim (Bool-cases (less_name b a)) [
  | inl k ↦ ground (
    arith,
    less_text_irrefl (caseless a),
    less_text_trans (caseless a) (caseless b) (caseless a) h k,
  )
  | inr k ↦ k
]

-- A name that is neither before nor behind another compares like it.
pub less_name_same :
    (a b c : Text)
    → less_name a b ≡ false
    → less_name b a ≡ false
    → (less_name a c ≡ less_name b c) × (less_name c a ≡ less_name c b)
unfolding less_name
less_name_same a b c h k = elim (less_text_cases (caseless a) (caseless b)) [
  | inl l ↦ absurd (ground (arith, h, l))
  | inr (inl e) ↦ (ap (λ t. less_text t (caseless c)) e, ap (λ t. less_text (caseless c) t) e)
  | inr (inr l) ↦ absurd (ground (arith, k, l))
]

-- Every name of the map is behind `key`.
IsAbove : Text → MapType → Type 0
IsAbove key [] = true ≡ true
IsAbove key (e ∷ es) = less_name key e.0 ≡ true

-- The order that `std::map` keeps.
unfoldable pub IsSorted : MapType → Type 0
unfolding IsAbove
IsSorted [] = true ≡ true
IsSorted (e ∷ es) = IsAbove e.0 es × IsSorted es

pub find_key-assign_key :
    (j key val : Text) (m : MapType)
    → find_key j (assign_key key val m) ≡ (if same_name j key then some val else find_key j m)
unfolding find_key assign_key same_name
find_key-assign_key j key val [] = ground (arith, less_name_asym key j, less_name_asym j key)
find_key-assign_key j key val (e ∷ es) = elim (Bool-cases (less_name e.0 key)) [
  | inl h ↦ rw h (
      ground (
        arith,
        find_key-assign_key j key val es,
        h,
        less_name_asym j key,
        less_name_asym key j,
        less_name_trans j e.0 key,
        less_name_same e.0 j key,
        less_name_asym e.0 j,
      ))
  | inr h ↦ elim (Bool-cases (less_name key e.0)) [
    | inl k ↦
        rw (h, k)
          (ground (
            arith,
            less_name_asym j key,
            less_name_asym key j,
            less_name_asym j e.0,
            less_name_asym e.0 j,
            less_name_trans j key e.0,
            less_name_same key j e.0,
            k,
          ))
    | inr k ↦ rw (h, k) (ground (arith, h, k, less_name_same e.0 key j h k))
  ]
]

-- A name that is not behind `k` is not among those behind `k`.
find_before : (j k : Text) (m : MapType) → less_name k j ≡ false → IsAbove k m → find_key j m ≡ none
unfolding find_key IsAbove
find_before j k [] h p = refl
find_before j k (e ∷ es) h p = ground (
  arith,
  h,
  p,
  less_name_trans j k e.0,
  less_name_same j k e.0,
  less_name_asym j e.0,
  less_name_asym k e.0,
  Bool-cases (less_name j k),
)

IsAbove_trans : (j k : Text) (m : MapType) → less_name j k ≡ true → IsAbove k m → IsAbove j m
unfolding IsAbove
IsAbove_trans j k [] h p = refl
IsAbove_trans j k (e ∷ es) h p = less_name_trans j k e.0 h p

assign_key-IsAbove :
    (j key val : Text) (m : MapType)
    → less_name j key ≡ true
    → IsAbove j m
    → IsAbove j (assign_key key val m)
unfolding assign_key IsAbove
assign_key-IsAbove j key val [] h p = h
assign_key-IsAbove j key val (e ∷ es) h p = elim (Bool-cases (less_name e.0 key)) [
  | inl l ↦ rw l p
  | inr l ↦ elim (Bool-cases (less_name key e.0)) [ inl k ↦ rw (l, k) h | inr k ↦ rw (l, k) p ]
]

erase_key-IsAbove :
    (j key : Text) (m : MapType) → IsSorted m → IsAbove j m → IsAbove j (erase_key key m)
unfolding erase_key IsAbove IsSorted
erase_key-IsAbove j key [] s p = refl
erase_key-IsAbove j key (e ∷ es) s p = elim (Bool-cases (less_name e.0 key)) [
  | inl l ↦ rw l p
  | inr l ↦ elim (Bool-cases (less_name key e.0)) [
    | inl k ↦ rw (l, k) p
    | inr k ↦ rw (l, k) (IsAbove_trans j e.0 es p s.0)
  ]
]

pub assign_key-IsSorted :
    (key val : Text) (m : MapType) → IsSorted m → IsSorted (assign_key key val m)
unfolding assign_key IsSorted IsAbove
assign_key-IsSorted key val [] s = (refl, refl)
assign_key-IsSorted key val (e ∷ es) s = elim (Bool-cases (less_name e.0 key)) [
  | inl l ↦ rw l (assign_key-IsAbove e.0 key val es l s.0, assign_key-IsSorted key val es s.1)
  | inr l ↦ elim (Bool-cases (less_name key e.0)) [
    | inl k ↦ rw (l, k) (k, (s.0, s.1))
    | inr k ↦ rw (l, k) s
  ]
]

pub erase_key-IsSorted : (key : Text) (m : MapType) → IsSorted m → IsSorted (erase_key key m)
unfolding erase_key IsSorted
erase_key-IsSorted key [] s = refl
erase_key-IsSorted key (e ∷ es) s = elim (Bool-cases (less_name e.0 key)) [
  | inl l ↦ rw l (erase_key-IsAbove e.0 key es s.1 s.0, erase_key-IsSorted key es s.1)
  | inr l ↦ elim (Bool-cases (less_name key e.0)) [ inl k ↦ rw (l, k) s | inr k ↦ rw (l, k) s.1 ]
]

pub find_key-erase_key :
    (j key : Text) (m : MapType)
    → IsSorted m
    → find_key j (erase_key key m) ≡ (if same_name j key then none else find_key j m)
unfolding find_key erase_key same_name IsSorted
find_key-erase_key j key [] s = ground arith
find_key-erase_key j key (e ∷ es) s = elim (Bool-cases (less_name e.0 key)) [
  | inl h ↦ rw h (
      ground (
        arith,
        find_key-erase_key j key es s.1,
        h,
        less_name_asym j key,
        less_name_asym key j,
        less_name_trans j e.0 key,
        less_name_same e.0 j key,
        less_name_asym e.0 j,
      ))
  | inr h ↦ elim (Bool-cases (less_name key e.0)) [
    | inl k ↦
        rw (h, k)
          (ground (
            arith,
            less_name_asym j key,
            less_name_asym key j,
            less_name_asym j e.0,
            less_name_asym e.0 j,
            less_name_trans j key e.0,
            less_name_same key j e.0,
            k,
          ))
    | inr k ↦
        rw (h, k)
          (elim (Bool-cases (less_name e.0 j)) [
            | inl l ↦ ground (arith, h, k, l, less_name_same e.0 key j h k)
            | inr l ↦
                ground (arith, h, k, l, less_name_same e.0 key j h k, find_before j e.0 es l s.0)
          ])
  ]
]
