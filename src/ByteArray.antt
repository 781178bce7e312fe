-- ===== src/ByteArray.antt =====
-- server/bytearray.h and bytearray.cc: the growing byte buffer, a chain of equal memory blocks
-- with a cursor. `before` are the nodes in front of `m_cur` and `after` those from `m_cur` on, so
-- `m_root` is the first node of `before ++ after` and an empty `after` is a null `m_cur`.
-- A node is the list of its bytes, of length `Node::size`.
pub mod Chain
pub mod WriteLoop
pub mod ReadLoop
pub mod Seek
pub mod Valid
pub mod Writing
pub mod Reading
pub mod Placing
pub mod RoundTrip
pub mod Appending
pub mod Remaining
pub mod Buffers
pub mod Gathering
pub mod Examples
use zjh_server.Base.{
  ℕ, zero, suc, ◌+◌, ◌-◌, ◌*◌, ◌/◌, ◌%◌, List, [], ◌∷◌, ◌++◌, ltb, leb, ◌==◌, if◌then◌else◌, length,
  take, drop, replicate, overwrite, slice, Bool, true, false,
}
use zjh_server.Base.Words.{sub64}

-- `fault` is undefined behaviour: a null node read, or a copy outside of a block.
pub data Result {ℓ} (A : Type ℓ) : Type ℓ where
  ok : A → Result A
  out_of_range : Result A
  fault : Result A

infixl 5 ◌>>=◌
abbrev pub ◌>>=◌ {ℓ κ} : {A : Type ℓ} {B : Type κ} → Result A → (A → Result B) → Result B
ok a >>= f = f a
out_of_range >>= f = out_of_range
fault >>= f = fault

abbrev pub Node : Type 0
Node = List ℕ

pub data Endian : Type 0 where
  little big : Endian

pub record Cursor : Type 0 where
  pub before : List Node
  pub after : List Node

pub record ByteArray : Type 0 where
  pub base_size : ℕ
  pub position : ℕ
  pub capacity : ℕ
  pub size : ℕ
  pub endian : Endian
  pub before : List Node
  pub after : List Node

-- A fresh block; its bytes are indeterminate in the source and stand as zeros here.
unfoldable pub new_node : ℕ → Node
new_node s = replicate s 0

unfoldable pub create : ℕ → ByteArray
create base = record {
  base_size = base;
  position = 0;
  capacity = base;
  size = 0;
  endian = big;
  before = [];
  after = new_node base ∷ [];
}

unfoldable pub is_little_endian : ByteArray → Bool
is_little_endian b = elim b.endian [ little ↦ true | big ↦ false ]

unfoldable pub set_is_little_endian : Bool → ByteArray → ByteArray
set_is_little_endian val b = record b { endian = if val then little else big }

unfoldable pub get_capacity : ByteArray → ℕ
get_capacity b = sub64 b.capacity b.position

unfoldable pub get_read_size : ByteArray → ℕ
get_read_size b = sub64 b.size b.position

-- `ceil(1.0 * size / m_baseSize)`
unfoldable pub ceil_div : ℕ → ℕ → ℕ
ceil_div a b = (a + b - 1) / b

-- New nodes go to the end of the chain. The cursor moves to the first of them only if there was
-- no room at all before.
link_nodes : ℕ → List Node → List Node → List Node → Cursor
link_nodes zero before after nodes = record { before = before ++ after; after = nodes }
link_nodes (suc room) before [] nodes = record { before = before ++ nodes; after = [] }
link_nodes (suc room) before (n ∷ after) nodes = record {
  before = before;
  after = n ∷ (after ++ nodes);
}

grow : ℕ → ByteArray → ByteArray
unfolding link_nodes
grow size b =
    let count = ceil_div (size - get_capacity b) b.base_size in
    let c = link_nodes (get_capacity b) b.before b.after (replicate count (new_node b.base_size)) in
    record b { capacity = b.capacity + count * b.base_size; before = c.before; after = c.after }

unfoldable pub add_capacity : ℕ → ByteArray → ByteArray
unfolding grow
add_capacity size b = if size == 0 then b else if leb size (get_capacity b) then b else grow size b

-- The loop of `write` from the node under the cursor, for the bytes still to be copied.
unfoldable pub write_loop : ℕ → List ℕ → List Node → List Node → Result Cursor
write_loop npos buf before [] = fault
write_loop npos buf before (n ∷ after) =
    let ncap = length n - npos in
    let full = before ++ overwrite npos (take ncap buf) n ∷ [] in
    let n' = overwrite npos buf n in
    let rest = write_loop 0 (drop ncap buf) full after in
    if ltb (length n) npos
    then fault
    else if leb (length buf) ncap
    then if length n == npos + length buf
      then ok (record { before = before ++ n' ∷ []; after = after })
      else ok (record { before = before; after = n' ∷ after })
    else rest

-- `m_position += size`, and `m_size` follows it.
advance : ℕ → Cursor → ByteArray → ByteArray
advance k c b =
    let position' = b.position + k in
    record b {
      position = position';
      size = if ltb b.size position' then position' else b.size;
      before = c.before;
      after = c.after;
    }

unfoldable pub write : List ℕ → ByteArray → Result ByteArray
unfolding advance
write buf b =
    if length buf == 0
    then ok b
    else let a = add_capacity (length buf) b in
      do
        c ← write_loop (a.position % a.base_size) buf a.before a.after
        ok (advance (length buf) c a)

-- The loop of `read`: the bytes copied out, and where the cursor stops.
unfoldable pub read_loop : ℕ → ℕ → List Node → List Node → Result (List ℕ × Cursor)
read_loop npos size before [] = fault
read_loop npos size before (n ∷ after) =
    let ncap = length n - npos in
    let rest = read_loop 0 (size - ncap) (before ++ n ∷ []) after in
    if size == 0
    then ok ([], record { before = before; after = n ∷ after })
    else if ltb (length n) npos
    then fault
    else if leb size ncap
    then if length n == npos + size
      then ok (slice npos size n, record { before = before ++ n ∷ []; after = after })
      else ok (slice npos size n, record { before = before; after = n ∷ after })
    else rest >>= λ r. ok (slice npos ncap n ++ r.0, r.1)

unfoldable pub read : ℕ → ByteArray → Result (List ℕ × ByteArray)
read size b = if ltb (get_read_size b) size then out_of_range else do
  r ← read_loop (b.position % b.base_size) size b.before b.after
  ok (r.0, record b { position = b.position + size; before = (r.1).before; after = (r.1).after })

-- `read(buf, size, position) const`: it starts at `m_cur`, whatever `position` is.
unfoldable pub read_at : ℕ → ℕ → ByteArray → Result (List ℕ)
read_at size position b =
    if ltb (sub64 b.size position) size
    then out_of_range
    else do r ← read_loop (position % b.base_size) size b.before b.after; ok r.0

-- The walk of `setPosition` from the root.
unfoldable pub seek : ℕ → List Node → List Node → Result Cursor
seek v before [] = fault
seek v before (n ∷ after) =
    let rest = seek (v - length n) (before ++ n ∷ []) after in
    if ltb (length n) v
    then rest
    else if v == length n
    then ok (record { before = before ++ n ∷ []; after = after })
    else ok (record { before = before; after = n ∷ after })

unfoldable pub set_position : ℕ → ByteArray → Result ByteArray
set_position v b = if ltb b.capacity v then out_of_range else do
  c ← seek v [] (b.before ++ b.after)
  ok (record b {
    position = v;
    size = if ltb b.size v then v else b.size;
    before = c.before;
    after = c.after;
  })

-- All nodes but the root are freed.
unfoldable pub clear : ByteArray → Result ByteArray
clear b = elim (b.before ++ b.after) [
  | [] ↦ fault
  | root ∷ _ ↦
      ok (record b {
        position = 0;
        size = 0;
        capacity = b.base_size;
        before = [];
        after = root ∷ [];
      })
]

unfoldable pub to_string : ByteArray → Result (List ℕ)
to_string b = if get_read_size b == 0 then ok [] else read_at (get_read_size b) b.position b
