-- ===== src/Server/Decode.antt =====
-- The decoder of src/snsd_server.c: the header of a received message, its root TLVs and their
-- sub-TLVs. A buffer is the list of its bytes, and `none` is a fault: an access outside a buffer, or
-- a loop that has not ended within its fuel.
use nvme_snsd.Base.{
  ℕ, zero, suc, ◌+◌, ◌-◌, ◌%◌, Bool, true, false, ◌||◌, not, ◌==◌, ltb, if◌then◌else◌, List, [],
  ◌∷◌, Option, none, some, ◌>>=◌, byte_at, be16_at, slice, drop, take, test_bit, is_success, length,
}
use nvme_snsd.Net.{snsd_ip_match, af_inet, mem_eq}
use nvme_snsd.Server.Message.{NtMsg, new_msg, snsd_get_value, snsd_check_msg_complete}
use nvme_snsd.Server.Pool.{MsgList, snsd_post_one_msg}
use nvme_snsd.Server.Ack.{Ack, mrp_bridge, eth_nts_type, snsd_ntf_ver, snsd_build_ack_tlv_info}

-- What `snsd_get_msg_header` returns: `-EACCES`, or 0 with `*tlv_len` and `*ver`.
pub data Header : Type 0 where
  rejected : Header
  accepted : ℕ → ℕ → Header

-- `snsd_get_msg_header`, on a buffer and the count of the bytes read into it.
unfoldable pub snsd_get_msg_header : List ℕ → ℕ → Option Header
snsd_get_msg_header buf len = if ltb len 22 || ltb 1514 len then some rejected else do
  h_proto ← be16_at buf 12
  h_dest ← slice buf 0 6
  ver ← byte_at buf 14
  tlv_sum_len ← be16_at buf 16
  some (
      if not (h_proto == eth_nts_type)
      then rejected
      else if not (mem_eq 6 h_dest mrp_bridge)
      then rejected
      else if ltb snsd_ntf_ver ver
      then rejected
      else if (tlv_sum_len == 0) || ltb (len - 22) tlv_sum_len
      then rejected
      else accepted tlv_sum_len ver)

-- `snsd_decode_sub_tlv` from the point where `used` bytes of the root TLV are behind it, so
-- `sub_pos` is `root_pos + used`.
unfoldable pub sub_tlv_from : ℕ → List ℕ → ℕ → ℕ → ℕ → NtMsg → Option NtMsg
sub_tlv_from zero buf root_pos root_len used msg = none
sub_tlv_from (suc fuel) buf root_pos root_len used msg =
    if ltb root_len (used + 2) then some msg else do
      type ← byte_at buf (root_pos + used)
      if ltb root_len (used + 3) then some msg else do
        len ← be16_at buf (root_pos + used + 1)
        if ltb root_len (used + 3 + len) then some msg else do
          msg' ← snsd_get_value buf (root_pos + used + 3) type len msg
          sub_tlv_from fuel buf root_pos root_len (used + 3 + len) msg'

-- `snsd_decode_sub_tlv`. Each round takes at least 3 bytes.
unfoldable pub snsd_decode_sub_tlv : List ℕ → ℕ → ℕ → NtMsg → Option NtMsg
unfolding sub_tlv_from
snsd_decode_sub_tlv buf root_pos root_len msg =
    sub_tlv_from (suc root_len) buf root_pos root_len 0 msg

-- The two lists of messages and the acknowledgement under construction.
pub record Server : Type 0 where
  pub msgs : MsgList
  pub ack : Ack

-- `snsd_check_hostip_consistent`: the loop over the addresses of the listener.
unfoldable pub host_ip_matches : List (List ℕ) → ℕ → List ℕ → Bool
host_ip_matches [] family ip = false
host_ip_matches (h ∷ hs) family ip =
    let rest = host_ip_matches hs family ip in if snsd_ip_match family h ip then true else rest

unfoldable pub snsd_check_hostip_consistent : List (List ℕ) → NtMsg → Bool
unfolding host_ip_matches
snsd_check_hostip_consistent host_ip msg =
    if msg.family == af_inet
    then host_ip_matches host_ip af_inet (take 4 (drop 10 msg.ip_tlv))
    else host_ip_matches host_ip msg.family (take 16 (drop 22 msg.ip_tlv))

-- The part of `snsd_deal_one_msg` for a message that is complete and for one of the addresses.
unfoldable pub accept_msg : NtMsg → Server → Option Server
accept_msg msg s =
    let (msgs, result) = snsd_post_one_msg msg s.msgs in
    if is_success result
    then (snsd_build_ack_tlv_info msg s.ack >>= λ ack. some (record { msgs = msgs; ack = ack }))
    else some (record s { msgs = msgs })

-- `snsd_deal_one_msg`.
unfoldable pub snsd_deal_one_msg : List (List ℕ) → NtMsg → Server → Option Server
unfolding accept_msg snsd_check_hostip_consistent
snsd_deal_one_msg host_ip msg s =
    if snsd_check_msg_complete msg.map
    then (if snsd_check_hostip_consistent host_ip msg then accept_msg msg s else some s)
    else some s

-- `snsd_decode_nt_tlv` from `root_pos` on.
unfoldable pub nt_tlv_from : ℕ → List ℕ → ℕ → List (List ℕ) → ℕ → ℕ → Server → Option Server
unfolding snsd_decode_sub_tlv snsd_deal_one_msg
nt_tlv_from zero buf len host_ip ver root_pos s = none
nt_tlv_from (suc fuel) buf len host_ip ver root_pos s =
    if ltb len (root_pos + 1) then some s else do
      root_type ← byte_at buf root_pos
      if not (test_bit root_type 5) || not (root_type % 32 == 1)
          then some s
          else if ltb len (root_pos + 1 + 2)
          then some s
          else do
            root_len ← be16_at buf (root_pos + 1)
            if ltb len (root_pos + 3 + root_len) then some s else do
              msg ← snsd_decode_sub_tlv buf (root_pos + 3) root_len (new_msg ver)
              s' ← snsd_deal_one_msg host_ip msg s
              nt_tlv_from fuel buf len host_ip ver (root_pos + 3 + root_len) s'

-- `snsd_decode_nt_tlv`. Each round takes at least 3 bytes.
unfoldable pub snsd_decode_nt_tlv : List ℕ → ℕ → List (List ℕ) → ℕ → Server → Option Server
unfolding nt_tlv_from
snsd_decode_nt_tlv buf len host_ip ver s = nt_tlv_from (suc len) buf len host_ip ver 0 s

-- `snsd_process_nt_msg`, after the header: whether the message was dropped, and the state.
unfoldable pub process_header : Header → List ℕ → List (List ℕ) → Server → Option (Bool × Server)
unfolding snsd_decode_nt_tlv
process_header rejected buf host_ip s = some (true, s)
process_header (accepted tlv_len ver) buf host_ip s = do
  s' ← snsd_decode_nt_tlv (drop 22 buf) tlv_len host_ip ver s
  some (false, s')

-- `snsd_process_nt_msg`, on the bytes that were received.
unfoldable pub snsd_process_nt_msg : List ℕ → List (List ℕ) → Server → Option (Bool × Server)
unfolding snsd_get_msg_header process_header
snsd_process_nt_msg buf host_ip s = do
  header ← snsd_get_msg_header buf (length buf)
  process_header header buf host_ip s
