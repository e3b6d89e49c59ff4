-- ===== src/Server/Message.antt =====
-- src/snsd_server.h, src/snsd_server.c: a notification message and the eight handlers that fill it.
-- The parts of a message that the code copies as raw memory are lists of bytes here. The host is
-- little-endian.
use nvme_snsd.Base.{
  ℕ, ◌/◌, ◌%◌, ◌-◌, Bool, true, false, ◌&&◌, ◌||◌, not, ◌==◌, ltb, if◌then◌else◌, List, [], ◌∷◌,
  ◌++◌, Option, some, ◌>>=◌, slice, poke, be_value, or_bit, u16, replicate, get_or,
}
use nvme_snsd.Net.{af_inet, af_inet6}

-- `nt_msg`, less the addresses and the `type` that no code sets.
pub record NtMsg : Type 0 where
  pub ver : ℕ
  pub map : ℕ
  pub family : ℕ
  -- The union `ip_tlv`: two IPv4 sub-TLVs of 7 bytes, or two IPv6 ones of 19.
  pub ip_tlv : List ℕ
  -- `sub_tlv_type5`: tag, length and number.
  pub seq_num_tlv : List ℕ
  pub state_tl : List ℕ
  pub state : ℕ
  pub nt_reason_tl : List ℕ
  pub nt_reason : ℕ
  pub ad_info_tl : List ℕ
  -- `struct addation_info`: role, protocol, 2 reserved bytes, 2 of the port, the length of the name
  -- and the 256 bytes of the name.
  pub ad_info : List ℕ

-- `memset(&msg, 0, sizeof(msg)); msg.ver = ver;`.
unfoldable pub new_msg : ℕ → NtMsg
new_msg ver = record {
  ver = ver;
  map = 0;
  family = 0;
  ip_tlv = replicate 38 0;
  seq_num_tlv = replicate 7 0;
  state_tl = replicate 3 0;
  state = 0;
  nt_reason_tl = replicate 3 0;
  nt_reason = 0;
  ad_info_tl = replicate 3 0;
  ad_info = replicate 263 0;
}

-- `snsd_save_tl_info`: a tag, and a length in network order.
abbrev pub tl_info : ℕ → ℕ → List ℕ
tl_info type len = type ∷ (len / 256) ∷ (len % 256) ∷ []

-- `snsd_set_msg_valid_bit`.
abbrev pub set_msg_valid_bit : ℕ → NtMsg → NtMsg
set_msg_valid_bit type msg = record msg { map = u16 (or_bit msg.map (type - 1)) }

-- The copy of an address of `n` bytes, with its tag, to `place` of the union.
abbrev pub copy_ip : ℕ → ℕ → List ℕ → ℕ → ℕ → NtMsg → Option NtMsg
copy_ip n place buf pos type msg = do
  ip ← slice buf pos n
  tlv ← poke msg.ip_tlv place (tl_info type n ++ ip)
  some (set_msg_valid_bit type (record msg { ip_tlv = tlv }))

unfoldable pub snsd_get_src_ipv4 : List ℕ → ℕ → ℕ → ℕ → NtMsg → Option NtMsg
snsd_get_src_ipv4 buf pos type len msg =
    if not (len == 4)
    then some msg
    else do msg' ← copy_ip 4 0 buf pos type msg; some (record msg' { family = af_inet })

unfoldable pub snsd_get_dst_ipv4 : List ℕ → ℕ → ℕ → ℕ → NtMsg → Option NtMsg
snsd_get_dst_ipv4 buf pos type len msg =
    if not (len == 4) then some msg else copy_ip 4 7 buf pos type msg

unfoldable pub snsd_get_src_ipv6 : List ℕ → ℕ → ℕ → ℕ → NtMsg → Option NtMsg
snsd_get_src_ipv6 buf pos type len msg =
    if not (len == 16)
    then some msg
    else do msg' ← copy_ip 16 0 buf pos type msg; some (record msg' { family = af_inet6 })

unfoldable pub snsd_get_dst_ipv6 : List ℕ → ℕ → ℕ → ℕ → NtMsg → Option NtMsg
snsd_get_dst_ipv6 buf pos type len msg =
    if not (len == 16) then some msg else copy_ip 16 19 buf pos type msg

unfoldable pub snsd_get_client_seq : List ℕ → ℕ → ℕ → ℕ → NtMsg → Option NtMsg
snsd_get_client_seq buf pos type len msg = if not (len == 4) then some msg else do
  seq ← slice buf pos 4
  tlv ← poke msg.seq_num_tlv 0 (tl_info type len ++ seq)
  some (set_msg_valid_bit type (record msg { seq_num_tlv = tlv }))

-- `snsd_check_msg_len`.
unfoldable pub snsd_check_msg_len : ℕ → ℕ → List (ℕ × ℕ) → Bool
snsd_check_msg_len ver len [] = false
snsd_check_msg_len ver len ((v, l) ∷ rest) =
    if (ver == v) && (len == l) then true else snsd_check_msg_len ver len rest

-- `snsd_check_state_len` and `snsd_check_reason_len`: 1 byte in version 0, 4 in version 1.
unfoldable pub snsd_check_state_len : ℕ → ℕ → Bool
unfolding snsd_check_msg_len
snsd_check_state_len ver len = snsd_check_msg_len ver len ((0, 1) ∷ (1, 4) ∷ [])

unfoldable pub snsd_check_reason_len : ℕ → ℕ → Bool
unfolding snsd_check_msg_len
snsd_check_reason_len ver len = snsd_check_msg_len ver len ((0, 1) ∷ (1, 4) ∷ [])

-- The value is copied to the end of a zeroed word in network order: it is the bytes' big-endian value.
unfoldable pub snsd_get_client_state : List ℕ → ℕ → ℕ → ℕ → NtMsg → Option NtMsg
unfolding snsd_check_state_len
snsd_get_client_state buf pos type len msg =
    if not (snsd_check_state_len msg.ver len) then some msg else do
      bytes ← slice buf pos len
      some (
          set_msg_valid_bit type
            (record msg { state = be_value 0 bytes; state_tl = tl_info type len }))

unfoldable pub snsd_get_nt_reason : List ℕ → ℕ → ℕ → ℕ → NtMsg → Option NtMsg
unfolding snsd_check_reason_len
snsd_get_nt_reason buf pos type len msg =
    if not (snsd_check_reason_len msg.ver len) then some msg else do
      bytes ← slice buf pos len
      some (
          set_msg_valid_bit type
            (record msg { nt_reason = be_value 0 bytes; nt_reason_tl = tl_info type len }))

-- `NT_TLV_NTOHS` of the port, at bytes 4 and 5.
abbrev swap_port : List ℕ → Option (List ℕ)
swap_port info = poke info 4 (get_or info 5 0 ∷ get_or info 4 0 ∷ [])

unfoldable pub snsd_get_ad_info : List ℕ → ℕ → ℕ → ℕ → NtMsg → Option NtMsg
snsd_get_ad_info buf pos type len msg = if ltb 262 len then some msg else do
  bytes ← slice buf pos len
  info ← poke msg.ad_info 0 bytes
  info' ← swap_port info
  some (set_msg_valid_bit type (record msg { ad_info = info'; ad_info_tl = tl_info type len }))

-- `snsd_get_value`: the table `tlv_func`; an unknown type is passed over.
unfoldable pub snsd_get_value : List ℕ → ℕ → ℕ → ℕ → NtMsg → Option NtMsg
unfolding snsd_get_src_ipv4 snsd_get_dst_ipv4 snsd_get_src_ipv6 snsd_get_dst_ipv6
    snsd_get_client_seq snsd_get_client_state snsd_get_nt_reason snsd_get_ad_info
snsd_get_value buf pos type len msg =
    if type == 1
    then snsd_get_src_ipv4 buf pos type len msg
    else if type == 2
    then snsd_get_dst_ipv4 buf pos type len msg
    else if type == 3
    then snsd_get_src_ipv6 buf pos type len msg
    else if type == 4
    then snsd_get_dst_ipv6 buf pos type len msg
    else if type == 5
    then snsd_get_client_seq buf pos type len msg
    else if type == 6
    then snsd_get_client_state buf pos type len msg
    else if type == 7
    then snsd_get_nt_reason buf pos type len msg
    else if type == 8
    then snsd_get_ad_info buf pos type len msg
    else some msg

-- `snsd_check_msg_complete`.
unfoldable pub snsd_check_msg_complete : ℕ → Bool
snsd_check_msg_complete map = if (map == 0xF3) || (map == 0xFC) then true else false
