-- ===== src/ByteArray/Valid.antt =====
-- server/bytearray.cc: the invariant of a buffer, and `addCapacity`.
use mathlib.Core.List.{append_assoc, append-nil}
use native.Mathlib.Nat.{mod-eq_of_lt, div-add-mod', mod-lt}
use zjh_server.Base.{
  ℕ, zero, suc, ◌+◌, ◌-◌, ◌*◌, ◌%◌, ◌^◌, ◌≤◌, ◌<◌, ◌≡◌, refl, ap, ◌∙◌, ◌⊎◌, inl, inr, List, [], ◌∷◌,
  ◌++◌, arith, leb, length, take, replicate, length-append, length-take, length-replicate,
  take-append_le, Bool-cases, leb→le, leb→lt, pos→==,
}
use zjh_server.Base.Words.{sub64_lem}
use zjh_server.ByteArray.{
  ByteArray, Node, Cursor, create, new_node, get_capacity, ceil_div, link_nodes, grow, add_capacity,
}
use zjh_server.ByteArray.Chain.{
  bytes, Sized, Sized-append, Sized-replicate, bytes-append, length-bytes-replicate, bytes-mod,
}

-- All blocks have the base size, the capacity is theirs together, and the cursor stands at the
-- block of the position.
pub record IsValid (b : ByteArray) : Type 0 where
  pub base_pos : 0 < b.base_size
  pub sized_before : Sized b.base_size b.before
  pub sized_after : Sized b.base_size b.after
  pub whole : length (bytes b.before) + length (bytes b.after) ≡ b.capacity
  pub at : length (bytes b.before) + b.position % b.base_size ≡ b.position
  pub position_le : b.position ≤ b.size
  pub size_le : b.size ≤ b.capacity
  pub rooted : 0 < b.capacity
  pub addressable : b.capacity < 2 ^ 64

abbrev pub chain : ByteArray → List ℕ
chain b = bytes b.before ++ bytes b.after

-- The data of a buffer: the first `m_size` bytes of its chain.
abbrev pub content : ByteArray → List ℕ
content b = take b.size (chain b)

pub length-chain : {b : ByteArray} → IsValid b → length (chain b) ≡ b.capacity
length-chain {b} v = length-append (bytes b.before) (bytes b.after) ∙ v.whole

pub length-content : {b : ByteArray} → IsValid b → length (content b) ≡ b.size
length-content {b} v = length-take b.size (chain b) (omega (arith, length-chain v, v.size_le))

pub get_capacity_lem : {b : ByteArray} → IsValid b → get_capacity b ≡ b.capacity - b.position
unfolding get_capacity
get_capacity_lem {b} v =
    sub64_lem b.capacity b.position (omega (arith, v.position_le, v.size_le)) v.addressable

create-IsValid : (base : ℕ) → 0 < base → base < 2 ^ 64 → IsValid (create base)
unfolding create new_node
create-IsValid base h k = record {
  base_pos = h;
  sized_before = tt;
  sized_after = (length-replicate base 0, tt);
  whole = rw append-nil (omega (arith, length-replicate {A = ℕ} base 0));
  at = omega (arith, mod-eq_of_lt h);
  position_le = omega arith;
  size_le = omega arith;
  rooted = h;
  addressable = k;
}

-- Rounding up to whole blocks gives at least what is asked, and less than one block more.
ceil_div_bounds : (a s : ℕ) → 0 < s → 0 < a → (a ≤ ceil_div a s * s) × (ceil_div a s * s < a + s)
unfolding ceil_div
ceil_div_bounds a s h k =
    let split = div-add-mod' (a + s - 1) s in
    let small : (a + s - 1) % s < s = mod-lt (a + s - 1) h in
    (omega (arith, split, small), omega (arith, split, small))

-- At the end of the chain the cursor's offset is 0.
pub at_end : {b : ByteArray} → IsValid b → b.position ≡ b.capacity → length (bytes b.after) ≡ 0
at_end {b} v e =
    let aligned = bytes-mod b.base_size 0 b.after v.base_pos v.sized_after in
    let small : b.position % b.base_size < b.base_size = mod-lt b.position v.base_pos in
    let same : length (bytes b.after) ≡ b.position % b.base_size = omega (arith, v.whole, v.at) in
    let low : length (bytes b.after) + 0 < b.base_size = omega (arith, same, small) in
    omega (arith, aligned, mod-eq_of_lt low)

link_nodes_lem :
    (s room : ℕ) (before after nodes : List Node)
    → Sized s before
    → Sized s after
    → Sized s nodes
    → (room ≡ 0 → length (bytes after) ≡ 0)
    → (0 < room → 0 < length (bytes after))
    → let c = link_nodes room before after nodes in
      Sized s c.before
      × Sized s c.after
      × (bytes c.before ++ bytes c.after ≡ (bytes before ++ bytes after) ++ bytes nodes)
      × (length (bytes c.before) ≡ length (bytes before))
unfolding link_nodes
link_nodes_lem s zero before after nodes zb za zn end more = (
  Sized-append s before after zb za,
  zn,
  ap (λ t. t ++ bytes nodes) (bytes-append before after),
  rw (bytes-append before after)
      (omega (arith, length-append (bytes before) (bytes after), end refl)),
)
link_nodes_lem s (suc room) before [] nodes zb za zn end more =
    absurd (omega (arith, more (omega arith)))
link_nodes_lem s (suc room) before (n ∷ after) nodes zb za zn end more = (
  zb,
  (za.0, Sized-append s after nodes za.1 zn),
  rw (bytes-append after nodes, append_assoc, append_assoc) refl,
  refl,
)

-- What `addCapacity(size)` leaves: the same data and position, with room for `size` bytes.
pub record Grown (size : ℕ) (b a : ByteArray) : Type 0 where
  pub valid : IsValid a
  pub same_content : content a ≡ content b
  pub same_position : a.position ≡ b.position
  pub same_size : a.size ≡ b.size
  pub same_base : a.base_size ≡ b.base_size
  pub same_endian : a.endian ≡ b.endian
  pub room : a.position + size ≤ a.capacity
  pub bound : (a.capacity ≡ b.capacity) ⊎ (a.capacity < b.position + size + b.base_size)

grow_lem :
    (size : ℕ) (b : ByteArray)
    → IsValid b
    → get_capacity b < size
    → b.position + size + b.base_size ≤ 2 ^ 64
    → Grown size b (grow size b)
unfolding grow
grow_lem size b v short fit = record {
  valid = record {
    base_pos = v.base_pos;
    sized_before = linked.0;
    sized_after = linked.1;
    whole =
        omega (arith, ap length linked.2, length-append (bytes c.before) (bytes c.after), total);
    at = omega (arith, linked.3, v.at);
    position_le = v.position_le;
    size_le = omega (arith, v.size_le);
    rooted = omega (arith, v.rooted);
    addressable = omega (arith, rounded, cap, v.position_le, v.size_le);
  };
  same_content =
      ap (take b.size) linked.2
      ∙ take-append_le b.size (chain b) (bytes nodes) (omega (arith, v.size_le, length-chain v));
  same_position = refl;
  same_size = refl;
  same_base = refl;
  same_endian = refl;
  room = omega (arith, rounded, cap, v.position_le, v.size_le);
  bound = inr (omega (arith, rounded, cap, v.position_le, v.size_le));
}
  where
    cap : get_capacity b ≡ b.capacity - b.position
    cap = get_capacity_lem v

    count : ℕ
    count = ceil_div (size - get_capacity b) b.base_size

    nodes : List Node
    nodes = replicate count (new_node b.base_size)

    c : Cursor
    c = link_nodes (get_capacity b) b.before b.after nodes

    rounded :
        (size - get_capacity b ≤ count * b.base_size)
        × (count * b.base_size < (size - get_capacity b) + b.base_size)
    rounded = ceil_div_bounds (size - get_capacity b) b.base_size v.base_pos (omega arith)

    linked :
        Sized b.base_size c.before
        × Sized b.base_size c.after
        × (bytes c.before ++ bytes c.after ≡ chain b ++ bytes nodes)
        × (length (bytes c.before) ≡ length (bytes b.before))
    linked =
        link_nodes_lem b.base_size (get_capacity b) b.before b.after nodes v.sized_before
          v.sized_after (Sized-replicate b.base_size count)
          (λ z. at_end v (omega (arith, z, cap, v.position_le, v.size_le)))
          (λ p. omega (arith, p, cap, v.whole, v.at))

    total : length (chain b ++ bytes nodes) ≡ b.capacity + count * b.base_size
    total = omega (
      arith,
      length-append (chain b) (bytes nodes),
      length-chain v,
      length-bytes-replicate b.base_size count,
    )

-- On a valid buffer that stays addressable `addCapacity` makes room for what is asked, keeps
-- data, position and size, and grows by no more than a block beyond it.
pub add_capacity_lem :
    (size : ℕ) (b : ByteArray)
    → IsValid b
    → 0 < size
    → b.position + size + b.base_size ≤ 2 ^ 64
    → Grown size b (add_capacity size b)
unfolding add_capacity
add_capacity_lem size b v h fit = elim (Bool-cases (leb size (get_capacity b))) [
  | inl e ↦
      rw (pos→== size h, e)
        (record {
          valid = v;
          same_content = refl;
          same_position = refl;
          same_size = refl;
          same_base = refl;
          same_endian = refl;
          room = omega (arith, leb→le _ _ e, get_capacity_lem v, v.position_le, v.size_le);
          bound = inl refl;
        })
  | inr e ↦ rw (pos→== size h, e) (grow_lem size b v (leb→lt _ _ e) fit)
]
