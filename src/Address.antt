-- ===== src/Address.antt =====
-- server/address.h and address.cc: the order of addresses, the numbers and texts of IPv4 and IPv6
-- addresses, paths of local sockets, and how a host is split for the lookup. The byte order of the
-- machine is the parameter `host`, as in the codecs.
pub mod Comparing
pub mod Counting
pub mod Printing
pub mod Paths
pub mod Splitting
pub mod Examples
use Prim.Native.Nat.{bit_and}
use zjh_server.Base.{
  ℕ, zero, suc, ◌+◌, ◌-◌, ◌/◌, ◌%◌, ◌^◌, List, [], ◌∷◌, ◌++◌, ltb, ◌==◌, if◌then◌else◌, length,
  take, drop, replicate, Bool, true, false, not, ◌&&◌, ◌||◌, Option, none, some,
}
use zjh_server.Base.Text.{Text, codes, c_str, same_text, less_text}
use zjh_server.Base.Text.Decimal.{to_decimal, has_byte}
use zjh_server.ByteArray.{Endian, big}
use zjh_server.Codec.{ordered}

-- `1 << (w - bits)` less one, for a type of `w` bits where the shift is one of `int`.
unfoldable pub create_mask : ℕ → ℕ → ℕ
create_mask w bits = 2 ^ (w - bits) - 1

-- The rounds of `CountBytes`; a round takes one bit away.
unfoldable pub count_bytes : ℕ → ℕ → ℕ → Option ℕ
count_bytes fuel zero result = some result
count_bytes zero (suc v) result = none
count_bytes (suc fuel) (suc v) result = count_bytes fuel (bit_and (suc v) v) (suc result)

-- The memory of an address and `getAddrLen`.
pub record RawAddress : Type 0 where
  pub bytes : Text
  pub addr_len : ℕ

-- The sign of `memcmp`: below, or equal.
unfoldable pub less_address : RawAddress → RawAddress → Bool
unfolding less_text
less_address a b =
    let minlen = if ltb b.addr_len a.addr_len then b.addr_len else a.addr_len in
    let below = less_text (take minlen a.bytes) (take minlen b.bytes) in
    let above = less_text (take minlen b.bytes) (take minlen a.bytes) in
    if below then true else (if above then false else ltb a.addr_len b.addr_len)

unfoldable pub same_address : RawAddress → RawAddress → Bool
unfolding same_text
same_address a b =
    a.addr_len == b.addr_len && same_text (take a.addr_len a.bytes) (take a.addr_len b.bytes)

-- `sin_addr` and `sin_port` as they stand in the structure.
pub record IPv4Address : Type 0 where
  pub sin_addr : ℕ
  pub sin_port : ℕ

-- The eight 16-bit units of `s6_addr` and `sin6_port`.
pub record IPv6Address : Type 0 where
  pub units : List ℕ
  pub sin6_port : ℕ

unfoldable pub hex_digit : ℕ → ℕ
hex_digit d = if ltb d 10 then b'0' + d else b'a' + (d - 10)

-- `std::hex` of a 16-bit value.
unfoldable pub to_hex : ℕ → Text
unfolding hex_digit
to_hex n =
    let d0 = hex_digit (n % 16) ∷ [] in
    let d1 = hex_digit (n / 16 % 16) ∷ d0 in
    let d2 = hex_digit (n / 256 % 16) ∷ d1 in
    if ltb n 16
    then d0
    else (if ltb n 256 then d1 else (if ltb n 4096 then d2 else hex_digit (n / 4096) ∷ d2))

module _ (host : Endian) where
  unfoldable pub new_ipv4 : ℕ → ℕ → IPv4Address
  unfolding ordered
  new_ipv4 address port = record {
    sin_addr = ordered host big 4 address;
    sin_port = ordered host big 2 port;
  }

  unfoldable pub get_port : IPv4Address → ℕ
  unfolding ordered
  get_port a = ordered host big 2 a.sin_port

  unfoldable pub set_port : ℕ → IPv4Address → IPv4Address
  unfolding ordered
  set_port v a = record a { sin_port = ordered host big 2 v }

  unfoldable pub insert_ipv4 : IPv4Address → Text
  unfolding ordered to_decimal
  insert_ipv4 a =
      let addr = ordered host big 4 a.sin_addr in
      to_decimal (addr / 2 ^ 24 % 256)
      ++ (b'.'
          ∷ (to_decimal (addr / 2 ^ 16 % 256)
              ++ (b'.'
                  ∷ (to_decimal (addr / 2 ^ 8 % 256)
                      ++ (b'.'
                          ∷ (to_decimal (addr % 256)
                              ++ (b':' ∷ to_decimal (ordered host big 2 a.sin_port))))))))

  -- The units from one on: whether it is not the first, whether the one before is 0, and whether
  -- the zeros are used. At the end, `::` for zeros that were left out and never marked.
  unfoldable pub insert_units : Bool → Bool → Bool → List ℕ → Text
  unfolding to_hex ordered
  insert_units later zero_before used [] = if not used && zero_before then codes "::" else []
  insert_units later zero_before used (u ∷ us) =
      let skipped = u == 0 && not used in
      let marked = later && (zero_before && not used) in
      let rest = insert_units true (u == 0) (if skipped then used else (used || marked)) us in
      if skipped
      then rest
      else (if marked then codes ":" else [])
        ++ ((if later then codes ":" else []) ++ (to_hex (ordered host big 2 u) ++ rest))

  unfoldable pub insert_ipv6 : IPv6Address → Text
  unfolding insert_units ordered to_decimal
  insert_ipv6 a =
      codes "["
      ++ (insert_units false false false a.units
          ++ (codes "]:" ++ to_decimal (ordered host big 2 a.sin6_port)))

-- `sun_path`, of 108 bytes, and `m_length`.
pub record UnixAddress : Type 0 where
  pub sun_path : Text
  pub length_of_address : ℕ

-- Whether a text begins with a NUL byte.
abbrev pub is_abstract : Text → Bool
is_abstract [] = false
is_abstract (b ∷ bs) = b == 0

-- `UnixAddress(path)`; `none` is the exception. `offsetof(sockaddr_un, sun_path)` is 2.
unfoldable pub new_unix : Text → Option UnixAddress
new_unix path =
    let size = if is_abstract path then length path else suc (length path) in
    let kept = take size (path ++ 0 ∷ []) in
    if ltb 108 size
    then none
    else some (record { sun_path = kept ++ replicate (108 - size) 0; length_of_address = size + 2 })

unfoldable pub get_path : UnixAddress → Text
unfolding c_str
get_path a =
    if ltb 2 a.length_of_address && is_abstract a.sun_path
    then codes "\\0" ++ take (a.length_of_address - 2 - 1) (drop 1 a.sun_path)
    else c_str a.sun_path

-- What stands before the first of a byte and what behind it, if it is there.
unfoldable pub split_at : ℕ → Text → Option (Text × Text)
split_at b [] = none
split_at b (x ∷ xs) = go (x == b) (split_at b xs)
  where
    go : Bool → Option (Text × Text) → Option (Text × Text)
    go true rest = some ([], xs)
    go false none = none
    go false (some r) = some (x ∷ r.0, r.1)

-- The service behind a bracket, if a colon follows.
unfoldable pub service_after : Text → Option Text
service_after [] = none
service_after (x ∷ xs) = if x == b':' then some xs else none

-- The first part of the lookup: `[node]:service`.
unfoldable pub split_bracket : Text → Text × Option Text
unfolding split_at service_after
split_bracket [] = ([], none)
split_bracket (x ∷ xs) = if x == b'[' then parts (split_at b']' xs) else ([], none)
  where
    parts : Option (Text × Text) → Text × Option Text
    parts none = ([], none)
    parts (some r) = (r.0, service_after r.1)

-- The second part, where no node was found: `node:service` with one colon. With more of them the
-- service stays at the first.
unfoldable pub split_colon : Text → Text × Option Text
unfolding split_at has_byte
split_colon host = parts (split_at b':' host)
  where
    parts : Option (Text × Text) → Text × Option Text
    parts none = ([], none)
    parts (some r) = if has_byte b':' r.1 then ([], some (b':' ∷ r.1)) else (r.0, some r.1)

-- Node and service that `Lookup` hands to `getaddrinfo`.
unfoldable pub split_host : Text → Text × Option Text
unfolding split_bracket split_colon
split_host host = with_node (split_bracket host)
  where
    or_host : Text × Option Text → Text × Option Text
    or_host ([], service) = (host, service)
    or_host (n ∷ ns, service) = (n ∷ ns, service)

    with_node : Text × Option Text → Text × Option Text
    with_node ([], service) = or_host (split_colon host)
    with_node (n ∷ ns, service) = (n ∷ ns, service)
