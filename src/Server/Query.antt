-- ===== src/Server/Query.antt =====
-- The query of the zone, src/snsd_server.c, `snsd_build_query_tlv`: the 44 bytes of a
-- `struct snsd_query_zone_tlv`, built in a zeroed buffer.
use nvme_snsd.Base.{
  ◌*◌, ◌&&◌, ◌⊎◌, inl, inr, leb, drop, Option, none, ◌>>=◌, ℕ, ◌+◌, ◌/◌, ◌%◌, ◌≡◌, refl, Bool, ◌==◌,
  if◌then◌else◌, List, [], ◌∷◌, ◌++◌, some, length, take, replicate, slice, be16_at,
}
use nvme_snsd.Net.{af_inet, mem_eq}
use nvme_snsd.Server.Ack.{mrp_bridge, eth_nts_type, snsd_ntf_ver}
use nvme_snsd.Server.Decode.{accepted, snsd_get_msg_header}

-- `snsd_build_query_msg_head`, with the length that `snsd_build_query_msg_tlv` fills in.
unfoldable pub snsd_build_query_msg_head : List ℕ → ℕ → List ℕ
snsd_build_query_msg_head mac tlv_len =
    mrp_bridge
    ++ (take 6 mac
        ++ ((eth_nts_type / 256)
            ∷ (eth_nts_type % 256)
            ∷ snsd_ntf_ver
            ∷ 0
            ∷ (tlv_len / 256)
            ∷ (tlv_len % 256)
            ∷ replicate 4 0))

-- The length of the sub-TLV of the address; whether the family is `AF_INET`.
abbrev pub sub_tlv_len : Bool → ℕ
sub_tlv_len inet = if inet then 7 else 19

-- `snsd_build_query_msg_tlv`: `1 << 5 | QUERY_ZONE_TLV`, and the address of the port.
unfoldable pub snsd_build_query_msg_tlv : Bool → List ℕ → List ℕ
snsd_build_query_msg_tlv inet ip =
    35
    ∷ (sub_tlv_len inet / 256)
    ∷ (sub_tlv_len inet % 256)
    ∷ (if inet then 2 ∷ 0 ∷ 4 ∷ (take 4 ip ++ replicate 12 0) else 4 ∷ 0 ∷ 16 ∷ take 16 ip)

-- `snsd_build_query_tlv`.
unfoldable pub query_bytes : Bool → List ℕ → List ℕ → List ℕ
unfolding snsd_build_query_msg_head snsd_build_query_msg_tlv
query_bytes inet ip mac =
    snsd_build_query_msg_head mac (3 + sub_tlv_len inet) ++ snsd_build_query_msg_tlv inet ip

unfoldable pub snsd_build_query_tlv : ℕ → List ℕ → List ℕ → List ℕ
unfolding query_bytes
snsd_build_query_tlv family ip mac = query_bytes (family == af_inet) ip mac

-- A TLV at the beginning of these bytes: its type, its value, and what is behind it.
abbrev pub read_tlv : List ℕ → Option (ℕ × List ℕ × List ℕ)
read_tlv (type ∷ l1 ∷ l2 ∷ bytes) =
    if leb (l1 * 256 + l2) (length bytes)
    then some (type, take (l1 * 256 + l2) bytes, drop (l1 * 256 + l2) bytes)
    else none
read_tlv _ = none

-- The address of a query by its sub-TLV: type 2 with 4 bytes is AF_INET, and type 4 with 16 is AF_INET6.
abbrev pub address_of : ℕ × List ℕ × List ℕ → Option (ℕ × List ℕ)
address_of (type, value, []) =
    if (type == 2) && (length value == 4)
    then some (2, value)
    else if (type == 4) && (length value == 16)
    then some (10, value)
    else none
address_of (type, value, c ∷ cs) = none

-- The sub-TLV of a query's TLV, whose type is 3 with the version 1 in its upper bits.
abbrev pub root_value : ℕ × List ℕ × List ℕ → Option (List ℕ)
root_value (type, value, []) = if type == 35 then some value else none
root_value (type, value, c ∷ cs) = none

-- A query as a switch reads it, whose header announces `tlv_len` bytes of TLVs behind its 22 bytes: the TLV
-- takes all of them, and its one sub-TLV all of its value.
abbrev pub read_query : ℕ → List ℕ → Option (ℕ × List ℕ)
read_query tlv_len query = do
  root ← read_tlv (take tlv_len (drop 22 query))
  value ← root_value root
  sub ← read_tlv value
  address_of sub

abbrev pub query_size : ℕ → ℕ
query_size family = if family == 2 then 4 else 16

-- A query for an address of a family.
abbrev pub Asks : ℕ → List ℕ → List ℕ → Type 0
Asks family ip query =
    (length query ≡ 44)
    × (snsd_get_msg_header query 44 ≡ some (accepted (6 + query_size family) 1))
    × (read_query (6 + query_size family) query ≡ some (family, take (query_size family) ip))

module _ (a b c d e f i0 i1 i2 i3 i4 i5 i6 i7 i8 i9 i10 i11 i12 i13 i14 i15 : ℕ) where
  abbrev ip_bytes : List ℕ
  ip_bytes =
      i0 ∷ i1 ∷ i2 ∷ i3 ∷ i4 ∷ i5 ∷ i6 ∷ i7 ∷ i8 ∷ i9 ∷ i10 ∷ i11 ∷ i12 ∷ i13 ∷ i14 ∷ i15 ∷ []

  abbrev mac_bytes : List ℕ
  mac_bytes = a ∷ b ∷ c ∷ d ∷ e ∷ f ∷ []

  -- The query of a port with an IPv4 or an IPv6 address has 44 bytes, and the check that this program makes
  -- of the header of a message accepts it. The header announces a TLV with one sub-TLV, in which a reader
  -- that goes by types and lengths finds the family and the 4 or 16 bytes of the address.
  pub build_query_tlv-Asks :
      (family : ℕ)
      → (family ≡ 2) ⊎ (family ≡ 10)
      → Asks family ip_bytes (snsd_build_query_tlv family ip_bytes mac_bytes)
  unfolding snsd_build_query_tlv snsd_get_msg_header be16_at slice mem_eq
  build_query_tlv-Asks family (inl e) = rw e (refl, refl, refl)
  build_query_tlv-Asks family (inr e) = rw e (refl, refl, refl)
