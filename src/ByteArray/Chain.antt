-- ===== src/ByteArray/Chain.antt =====
-- server/bytearray.cc: the chain of blocks seen as one run of bytes.
use mathlib.Core.List.{append_assoc, append-nil}
use native.Mathlib.Nat.{mod-eq_of_lt, add-mod_left, zero-add, add_assoc}
use zjh_server.Base.{
  ℕ, zero, suc, ◌+◌, ◌%◌, ◌*◌, ◌<◌, ◌≡◌, refl, List, [], ◌∷◌, ◌++◌, arith, length, replicate,
  length-append, length-replicate,
}
use zjh_server.ByteArray.{Node, Cursor, new_node}

abbrev pub bytes : List Node → List ℕ
bytes [] = []
bytes (n ∷ ns) = n ++ bytes ns

abbrev pub Sized : ℕ → List Node → Type 0
Sized s [] = Unit {0}
Sized s (n ∷ ns) = (length n ≡ s) × Sized s ns

pub bytes-append : (a b : List Node) → bytes (a ++ b) ≡ bytes a ++ bytes b
bytes-append [] b = refl
bytes-append (n ∷ a) b = rw (bytes-append a b, append_assoc n (bytes a) (bytes b)) refl

pub Sized-append : (s : ℕ) (a b : List Node) → Sized s a → Sized s b → Sized s (a ++ b)
Sized-append s [] b h k = k
Sized-append s (n ∷ a) b h k = (h.0, Sized-append s a b h.1 k)

pub Sized-replicate : (s k : ℕ) → Sized s (replicate k (new_node s))
unfolding new_node
Sized-replicate s zero = tt
Sized-replicate s (suc k) = (length-replicate s 0, Sized-replicate s k)

pub length-bytes-replicate : (s k : ℕ) → length (bytes (replicate k (new_node s))) ≡ k * s
unfolding new_node
length-bytes-replicate s zero = omega arith
length-bytes-replicate s (suc k) = grind (
  arith,
  length-append (replicate s 0) (bytes (replicate k (new_node s))),
  length-replicate {A = ℕ} s 0,
  length-bytes-replicate s k,
)

-- A chain of blocks ends at a multiple of the block size.
pub bytes-mod :
    (s off : ℕ) (ns : List Node) → off < s → Sized s ns → (length (bytes ns) + off) % s ≡ off
bytes-mod s off [] h z = rw zero-add (mod-eq_of_lt h)
bytes-mod s off (n ∷ ns) h z =
    rw (length-append n (bytes ns), z.0, add_assoc, add-mod_left) (bytes-mod s off ns h z.1)

pub length-bytes-snoc :
    (ns : List Node) (n : Node) → length (bytes (ns ++ n ∷ [])) ≡ length (bytes ns) + length n
length-bytes-snoc ns n = rw (bytes-append ns (n ∷ []), append-nil n) (length-append (bytes ns) n)

pub bytes-snoc :
    (ns : List Node) (n : Node) (t : List ℕ) → bytes (ns ++ n ∷ []) ++ t ≡ bytes ns ++ (n ++ t)
bytes-snoc ns n t = rw (bytes-append ns (n ∷ []), append-nil n, append_assoc) refl

-- Where a loop stopped that began at `(before, after)` and moved by `k` from offset `npos`.
pub record Stops (s npos k : ℕ) (before : List Node) (c : Cursor) : Type 0 where
  pub off : ℕ
  pub off_small : off < s
  pub sized_before : Sized s c.before
  pub sized_after : Sized s c.after
  pub stop : length (bytes c.before) + off ≡ length (bytes before) + npos + k
