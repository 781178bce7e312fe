-- ===== src/Stream/Examples.antt =====
-- server/stream.cc: the theorems on streams that move one and two bytes a call.
use zjh_server.Base.{ℕ, zero, suc, ◌+◌, List, [], ◌∷◌}
use zjh_server.Stream.{Transfer, moved, Sent, sent}

-- The bytes that the stream still has: a call gives the next one.
abbrev next_byte : List ℕ → ℕ → List ℕ × Transfer
next_byte [] n = ([], moved [])
next_byte (b ∷ bs) zero = (b ∷ bs, moved [])
next_byte (b ∷ bs) (suc n) = (bs, moved (b ∷ []))

-- The stream counts the calls, and takes two bytes in each.
abbrev take_two : ℕ → List ℕ → ℕ × Sent
take_two calls buffer = (calls + 1, sent 2)
