-- ===== src/FdManager/Asking.antt =====
-- server/fd_manager.cc: asking for a descriptor again gives the same state.
use zjh_server.Base.{
  ℕ, zero, suc, ◌+◌, ◌-◌, ◌*◌, ◌/◌, ◌≤◌, ◌<◌, ◌≡◌, refl, ap, ◌∙◌, ◌⊎◌, inl, inr, [], ◌∷◌, ◌++◌,
  arith, leb, length, take, replicate, length-append, length-replicate, Bool, true, Option, none,
  some, Bool-cases, get_elem?, set, lt→ltb, le→ltb, leb→le, leb→lt, le→leb, lt→leb,
}
use zjh_server.FdManager.{FdCtx, Slots, resize, new_fd_ctx, get}

get_elem?_beyond : (slots : Slots) (fd : ℕ) → length slots ≤ fd → get_elem? slots fd ≡ none
get_elem?_beyond [] fd h = refl
get_elem?_beyond (c ∷ cs) zero h = ground arith
get_elem?_beyond (c ∷ cs) (suc fd) h = get_elem?_beyond cs fd (omega arith)

get_elem?-set :
    (slots : Slots) (fd : ℕ) (c : Option FdCtx)
    → fd < length slots
    → get_elem? (set slots fd c) fd ≡ some c
get_elem?-set [] fd c h = ground arith
get_elem?-set (x ∷ xs) zero c h = refl
get_elem?-set (x ∷ xs) (suc fd) c h = get_elem?-set xs fd c (omega arith)

abbrev no_ctx : Option FdCtx
no_ctx = none

take_all : (size : ℕ) (slots : Slots) → length slots ≤ size → take size slots ≡ slots
take_all zero [] h = refl
take_all zero (c ∷ cs) h = ground arith
take_all (suc n) [] h = refl
take_all (suc n) (c ∷ cs) h = ap (λ l. c ∷ l) (take_all n cs (omega arith))

length-resize :
    (size count : ℕ) (slots : Slots)
    → size ≡ length slots + count
    → length (take size slots ++ replicate count none) ≡ size
length-resize size count slots e =
    rw (take_all size slots (omega (arith, e)))
      (length-append slots (replicate count none) ∙ omega (arith, e, length-replicate count no_ctx))

-- What a descriptor has, if it has anything.
get_found :
    (stat : Option Bool) (fd : ℕ) (auto : Bool) (slots : Slots) (c : FdCtx)
    → get_elem? slots fd ≡ some (some c)
    → fd < length slots
    → get stat (some fd) auto slots ≡ some (slots, some c)
unfolding get
get_found stat fd auto slots c e h =
    rw (lt→ltb fd (length slots) h, lt→leb (length slots) fd h, e) refl

get_beyond :
    (stat : Option Bool) (fd : ℕ) (slots : Slots)
    → length slots ≤ fd
    → fd < length (resize (fd * 3 / 2) slots)
    → get stat (some fd) true slots
      ≡ some (
        set (resize (fd * 3 / 2) slots) fd (some (new_fd_ctx fd stat)),
        some (new_fd_ctx fd stat),
      )
unfolding get
get_beyond stat fd slots h room =
    rw
      (
        le→leb (length slots) fd h,
        le→ltb fd (length slots) h,
        lt→ltb fd (length (resize (fd * 3 / 2) slots)) room,
      )
      refl

get_empty :
    (stat : Option Bool) (fd : ℕ) (slots : Slots)
    → get_elem? slots fd ≡ some none
    → fd < length slots
    → get stat (some fd) true slots
      ≡ some (set slots fd (some (new_fd_ctx fd stat)), some (new_fd_ctx fd stat))
unfolding get
get_empty stat fd slots e h = rw (lt→leb (length slots) fd h, lt→ltb fd (length slots) h, e) refl

get_elem?_bound :
    (slots : Slots) (fd : ℕ) (c : Option FdCtx) → get_elem? slots fd ≡ some c → fd < length slots
get_elem?_bound [] fd c e = ground arith
get_elem?_bound (x ∷ xs) zero c e = omega arith
get_elem?_bound (x ∷ xs) (suc fd) c e = omega (arith, get_elem?_bound xs fd c e)

-- A slot of the table has a state or is empty.
slot_cases :
    (slots : Slots) (fd : ℕ)
    → fd < length slots
    → ((c : FdCtx) × (get_elem? slots fd ≡ some (some c))) ⊎ (get_elem? slots fd ≡ some none)
slot_cases [] fd h = ground arith
slot_cases (none ∷ xs) zero h = inr refl
slot_cases (some c ∷ xs) zero h = inl (c, refl)
slot_cases (x ∷ xs) (suc fd) h = slot_cases xs fd (omega arith)

-- Asking for a descriptor with `auto_create`, in a table of at least two slots, gives a state,
-- and asking for it again, in whatever way, gives the same state and leaves the table as it is.
pub get_again :
    (stat later : Option Bool) (fd : ℕ) (auto : Bool) (slots : Slots)
    → 2 ≤ length slots
    → (slots' : Slots) × (c : FdCtx) × (get stat (some fd) true slots ≡ some (slots', some c))
      × (get later (some fd) auto slots' ≡ some (slots', some c))
get_again stat later fd auto slots two = elim (Bool-cases (leb (length slots) fd)) [
  | inl e ↦
      let beyond = leb→le (length slots) fd e in
      let made = new_fd_ctx fd stat in
      let size = fd * 3 / 2 in
      let long : length (resize size slots) ≡ size =
        length-resize size (size - length slots) slots (omega arith) in
      let room : fd < length (resize size slots) = omega (arith, long) in
      let at = get_elem?-set (resize size slots) fd (some made) room in
      (
        set (resize size slots) fd (some made),
        made,
        get_beyond stat fd slots beyond room,
        get_found later fd auto (set (resize size slots) fd (some made)) made at
            (get_elem?_bound _ fd _ at),
      )
  | inr e ↦
      let within = leb→lt (length slots) fd e in
      elim (slot_cases slots fd within) [
        | inl (c, f) ↦ (
          slots,
          c,
          get_found stat fd true slots c f within,
          get_found later fd auto slots c f within,
        )
        | inr f ↦
            let made = new_fd_ctx fd stat in
            let at = get_elem?-set slots fd (some made) within in
            (
              set slots fd (some made),
              made,
              get_empty stat fd slots f within,
              get_found later fd auto (set slots fd (some made)) made at
                  (get_elem?_bound _ fd _ at),
            )
      ]
]
