-- ===== src/Servlet/Routing.antt =====
-- server/http/servlet.cc: which servlet a URI gets.
use zjh_server.Base.{
  ℕ, ◌≡◌, refl, sym, ◌∙◌, inl, inr, [], ◌∷◌, arith, ◌==◌, if◌then◌else◌, Bool, true, false, ◌&&◌,
  some, Bool-cases, ==_iff,
}
use mathlib.Core.Path.{ap₂}
use zjh_server.Servlet.{
  Uri, same_uri, Table, ServletDispatch, find_entry, erase_entry, set_entry, add_servlet,
  del_servlet, del_glob_servlet, get_servlet, get_glob_servlet, get_matched_servlet,
}

same_uri_refl : (u : Uri) → same_uri u u ≡ true
unfolding same_uri
same_uri_refl [] = refl
same_uri_refl (x ∷ xs) = rw ((==_iff x x).1 refl, same_uri_refl xs) refl

and_true : (a b : Bool) → (a && b) ≡ true → (a ≡ true) × (b ≡ true)
and_true true b e = (refl, e)
and_true false b e = ground arith

same_uri-equal : (u v : Uri) → same_uri u v ≡ true → u ≡ v
unfolding same_uri
same_uri-equal [] [] e = refl
same_uri-equal [] (y ∷ ys) e = ground arith
same_uri-equal (x ∷ xs) [] e = ground arith
same_uri-equal (x ∷ xs) (y ∷ ys) e =
    let both = and_true (x == y) (same_uri xs ys) e in
    ap₂ (λ h t. h ∷ t) ((==_iff x y).0 both.0) (same_uri-equal xs ys both.1)

-- Two URIs that are the same as a third are the same.
same_uri_trans : (a b c : Uri) → same_uri a c ≡ true → same_uri b c ≡ true → same_uri a b ≡ true
same_uri_trans a b c e f =
    let same : a ≡ b = same_uri-equal a c e ∙ sym (same_uri-equal b c f) in
    rw same (same_uri_refl b)

find-set :
    (uri other : Uri) (slt : ℕ) (t : Table)
    → find_entry other (set_entry uri slt t)
      ≡ (if same_uri uri other then some slt else find_entry other t)
unfolding find_entry set_entry
find-set uri other slt [] = refl
find-set uri other slt (e ∷ es) = elim (Bool-cases (same_uri e.0 uri)) [
  | inl h ↦
      let same = same_uri-equal e.0 uri h in
      elim (Bool-cases (same_uri uri other)) [
        | inl k ↦ rw (h, same, k) refl
        | inr k ↦ rw (h, same, k) refl
      ]
  | inr h ↦ elim (Bool-cases (same_uri e.0 other)) [
    | inl g ↦ elim (Bool-cases (same_uri uri other)) [
      | inl k ↦ ground (arith, same_uri_trans e.0 uri other g k)
      | inr k ↦ rw (h, g, k) refl
    ]
    | inr g ↦ rw (h, g, find-set uri other slt es) refl
  ]
]

find-erase :
    (uri other : Uri) (t : Table)
    → same_uri uri other ≡ false
    → find_entry other (erase_entry uri t) ≡ find_entry other t
unfolding find_entry erase_entry
find-erase uri other [] n = refl
find-erase uri other (e ∷ es) n = elim (Bool-cases (same_uri e.0 uri)) [
  | inl h ↦ rw (h, same_uri-equal e.0 uri h, n) refl
  | inr h ↦ rw (h, find-erase uri other es n) refl
]

-- After `addServlet` exactly its URI gets the new servlet, before any glob; every other URI
-- gets what it got before.
pub add_servlet_lem :
    (matches : Uri → Uri → Bool) (uri other : Uri) (slt : ℕ) (d : ServletDispatch)
    → get_matched_servlet matches other (add_servlet uri slt d)
      ≡ (if same_uri uri other then slt else get_matched_servlet matches other d)
unfolding get_matched_servlet add_servlet
add_servlet_lem matches uri other slt d = elim (Bool-cases (same_uri uri other)) [
  | inl h ↦ rw (find-set uri other slt d.datas, h) refl
  | inr h ↦ rw (find-set uri other slt d.datas, h) refl
]

-- `delServlet` and both operations on globs leave the exact routes of other URIs.
pub others_keep_route :
    (uri other : Uri) (slt : ℕ) (d : ServletDispatch)
    → same_uri uri other ≡ false
    → (get_servlet other (del_servlet uri d) ≡ get_servlet other d)
      × (get_servlet other (add_servlet uri slt d) ≡ get_servlet other d)
      × (get_glob_servlet other (del_glob_servlet uri d) ≡ get_glob_servlet other d)
unfolding get_servlet del_servlet add_servlet get_glob_servlet del_glob_servlet
others_keep_route uri other slt d n = (
  find-erase uri other d.datas n,
  rw (find-set uri other slt d.datas, n) refl,
  find-erase uri other d.globs n,
)
