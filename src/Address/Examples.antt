-- ===== src/Address/Examples.antt =====
-- server/address.cc: the theorems on concrete addresses.
use zjh_server.Base.{
  ◌/◌, ◌%◌, ◌^◌, ◌≡◌, refl, [], ◌∷◌, ◌++◌, take, if◌then◌else◌, false, none, some, arith,
}
use zjh_server.Base.Text.{codes, less_text, same_text}
use zjh_server.Base.Text.Decimal.{fields, has_byte}
use zjh_server.ByteArray.{little}
use zjh_server.Address.{
  RawAddress, less_address, same_address, IPv4Address, new_ipv4, get_port, set_port, insert_ipv4,
  split_host,
}
use zjh_server.Address.Comparing.{address_order_lem}
use zjh_server.Address.Printing.{ipv4_lem}
use zjh_server.Address.Splitting.{split_host_lem}

abbrev short : RawAddress
short = record { bytes = 1 ∷ 2 ∷ 3 ∷ []; addr_len = 2 }

abbrev long : RawAddress
long = record { bytes = 1 ∷ 2 ∷ 0 ∷ []; addr_len = 3 }

address_order_example :
    (less_address short long ≡ less_text (take 2 (1 ∷ 2 ∷ 3 ∷ [])) (take 3 (1 ∷ 2 ∷ 0 ∷ [])))
    × (same_address short long ≡ same_text (take 2 (1 ∷ 2 ∷ 3 ∷ [])) (take 3 (1 ∷ 2 ∷ 0 ∷ [])))
address_order_example = address_order_lem short long (omega arith) (omega arith)

abbrev nowhere : IPv4Address
nowhere = record { sin_addr = 0; sin_port = 0 }

ipv4_example :
    (fields 0 (insert_ipv4 little (new_ipv4 little 2130706433 8020))
      ≡ 2130706433 / 2 ^ 24
        ∷ 2130706433 / 2 ^ 16 % 256
        ∷ 2130706433 / 2 ^ 8 % 256
        ∷ 2130706433 % 256
        ∷ 8020
        ∷ [])
    × (get_port little (new_ipv4 little 2130706433 8020) ≡ 8020)
    × (get_port little (set_port little 80 nowhere) ≡ 80)
ipv4_example = ipv4_lem little 2130706433 8020 80 nowhere (omega arith) (omega arith) (omega arith)

no_colon : has_byte b':' (b'a' ∷ []) ≡ false
unfolding has_byte
no_colon = refl

no_bracket : has_byte b']' (b'a' ∷ []) ≡ false
unfolding has_byte
no_bracket = refl

split_host_example :
    (split_host (b'a' ∷ []) ≡ (b'a' ∷ [], none))
    × (split_host ((b'a' ∷ []) ++ (b':' ∷ codes "80")) ≡ (
        if has_byte b':' (codes "80")
        then ((b'a' ∷ []) ++ (b':' ∷ codes "80"), some (b':' ∷ codes "80"))
        else (b'a' ∷ [], some (codes "80"))))
    × (split_host (b'[' ∷ ((b'a' ∷ []) ++ (b']' ∷ b':' ∷ codes "80")))
        ≡ (b'a' ∷ [], some (codes "80")))
split_host_example = split_host_lem b'a' [] (codes "80") refl no_colon no_bracket
