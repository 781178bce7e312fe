-- ===== src/Address/Printing.antt =====
-- server/address.cc: the text of an IPv4 address, read as numbers, and its port.
use mathlib.Core.List.{append-nil}
use zjh_server.Base.{ℕ, ◌/◌, ◌%◌, ◌^◌, ◌<◌, ◌≡◌, refl, sym, ap, ◌∙◌, List, [], ◌∷◌, ◌++◌, arith}
use zjh_server.Base.Text.{Text}
use zjh_server.Base.Text.Decimal.{to_decimal, fields, fields-to_decimal}
use zjh_server.ByteArray.{Endian}
use zjh_server.Codec.Wire.{ordered-ordered}
use zjh_server.Address.{IPv4Address, new_ipv4, get_port, set_port, insert_ipv4}

-- A number, a border, and what follows.
fields_step :
    (n : ℕ) (c : ℕ) (rest : Text) (ns : List ℕ)
    → fields n (c ∷ rest) ≡ n ∷ fields 0 rest
    → fields 0 rest ≡ ns
    → fields 0 (to_decimal n ++ (c ∷ rest)) ≡ n ∷ ns
fields_step n c rest ns h k = fields-to_decimal n (c ∷ rest) ∙ h ∙ ap (λ t. n ∷ t) k

fields_last : (n : ℕ) → fields 0 (to_decimal n) ≡ n ∷ []
unfolding fields
fields_last n = ap (fields 0) (sym (append-nil (to_decimal n))) ∙ fields-to_decimal n []

-- On a machine of either byte order, the text of an IPv4 address made of 32 bits and a port
-- of 16 holds the four bytes of the address, highest first, and the port, and `getPort` gives
-- the port that was last set.
pub ipv4_lem :
    (host : Endian) (address port v : ℕ) (a : IPv4Address)
    → address < 2 ^ 32
    → port < 2 ^ 16
    → v < 2 ^ 16
    → (fields 0 (insert_ipv4 host (new_ipv4 host address port))
        ≡ address / 2 ^ 24
          ∷ address / 2 ^ 16 % 256
          ∷ address / 2 ^ 8 % 256
          ∷ address % 256
          ∷ port
          ∷ [])
      × (get_port host (new_ipv4 host address port) ≡ port)
      × (get_port host (set_port host v a) ≡ v)
unfolding insert_ipv4 new_ipv4 get_port set_port fields
ipv4_lem host address port v a h k l =
    let same = ordered-ordered host 4 address (omega arith) in
    let high : address / 2 ^ 24 % 256 ≡ address / 2 ^ 24 = omega arith in
    (
      rw (same, ordered-ordered host 2 port (omega arith))
          (fields_step (address / 2 ^ 24 % 256) b'.' _ _ refl (
              fields_step (address / 2 ^ 16 % 256) b'.' _ _ refl (
                fields_step (address / 2 ^ 8 % 256) b'.' _ _ refl
                  (fields_step (address % 256) b':' _ _ refl (fields_last port))))
            ∙ ap
                (λ t.
                  t ∷ address / 2 ^ 16 % 256 ∷ address / 2 ^ 8 % 256 ∷ address % 256 ∷ port ∷ [])
                high),
      ordered-ordered host 2 port (omega arith),
      ordered-ordered host 2 v (omega arith),
    )
