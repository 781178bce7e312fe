-- ===== src/ByteArray/Buffers.antt =====
-- server/bytearray.cc: `getReadBuffers` and `getWriteBuffers`. A pointer into a block is the number of
-- the block in the chain and an offset.
use zjh_server.Base.{
  ℕ, ◌+◌, ◌-◌, ◌/◌, ◌%◌, List, [], ◌∷◌, ◌++◌, ltb, leb, ◌==◌, if◌then◌else◌, length, drop,
}
use zjh_server.ByteArray.{ByteArray, Node, Result, ok, fault, ◌>>=◌, get_read_size, add_capacity}

pub record Iovec : Type 0 where
  pub block : ℕ
  pub offset : ℕ
  pub len : ℕ

-- The loop that collects the parts of `len` bytes, from the block with number `index` on.
unfoldable pub buffers_loop : ℕ → ℕ → ℕ → List Node → Result (List Iovec)
buffers_loop npos len index [] = fault
buffers_loop npos len index (n ∷ after) =
    let ncap = length n - npos in
    let rest = buffers_loop 0 (len - ncap) (index + 1) after in
    if ltb (length n) npos
    then fault
    else (if leb len ncap
        then ok (record { block = index; offset = npos; len = len } ∷ [])
        else rest >>= λ iovs. ok (record { block = index; offset = npos; len = ncap } ∷ iovs))

abbrev pub at_most : ℕ → ℕ → ℕ
at_most len rest = if ltb rest len then rest else len

-- The vector afterwards, and how many bytes it was extended by.
unfoldable pub get_read_buffers : List Iovec → ℕ → ByteArray → Result (List Iovec × ℕ)
unfolding buffers_loop
get_read_buffers buffers len b =
    let size = at_most len (get_read_size b) in
    if size == 0
    then ok (buffers, 0)
    else buffers_loop (b.position % b.base_size) size (length b.before) b.after >>= λ iovs.
        ok (buffers ++ iovs, size)

-- The same from a given position: the walk from the root faults on a null block.
unfoldable pub get_read_buffers_at : List Iovec → ℕ → ℕ → ByteArray → Result (List Iovec × ℕ)
unfolding buffers_loop
get_read_buffers_at buffers len position b =
    let size = at_most len (get_read_size b) in
    let count = position / b.base_size in
    if size == 0
    then ok (buffers, 0)
    else buffers_loop (position % b.base_size) size count (drop count (b.before ++ b.after))
      >>= λ iovs. ok (buffers ++ iovs, size)

unfoldable pub get_write_buffers :
    List Iovec → ℕ → ByteArray → Result (ByteArray × (List Iovec × ℕ))
unfolding buffers_loop
get_write_buffers buffers len b =
    let a = add_capacity len b in
    if len == 0
    then ok (b, (buffers, 0))
    else buffers_loop (a.position % a.base_size) len (length a.before) a.after >>= λ iovs.
        ok (a, (buffers ++ iovs, len))
