-- ===== src/Server/Bounds.antt =====
-- Receiving any message: no access is out of bounds, the loops end, and the acknowledgement always
-- has room.
use nvme_snsd.Base.{
  ℕ, zero, suc, ◌+◌, ◌≡◌, sym, subst, ◌≤◌, ◌<◌, true, ◌==◌, ==_iff, ltb, List, Option, length,
  arith, if_cases, Holds, Holds->>=, be16_at, byte_at-Holds, be16_at-Holds, get_elem?,
}
use nvme_snsd.Server.Message.{
  NtMsg, new_msg, snsd_get_value, snsd_get_src_ipv4, snsd_get_dst_ipv4, snsd_get_src_ipv6,
  snsd_get_dst_ipv6, snsd_get_client_seq, snsd_get_client_state, snsd_get_nt_reason,
  snsd_get_ad_info,
}
use nvme_snsd.Server.Complete.{
  MsgOk, new_msg-MsgOk, MsgOk-mono, Handles, seq-MsgOk, src4-MsgOk, src6-MsgOk, dst4-MsgOk,
  dst6-MsgOk, state-MsgOk, reason-MsgOk, ad-MsgOk,
}
use nvme_snsd.Server.Decode.{sub_tlv_from, snsd_decode_sub_tlv}

pick :
    (handler : List ℕ → ℕ → ℕ → ℕ → NtMsg → Option NtMsg) (k type : ℕ)
    → (type == k) ≡ true
    → Handles handler k
    → Handles handler type
pick handler k type e h = subst (Handles handler) (sym ((==_iff type k).0 e)) h

-- Every handler, and an unknown type.
pub snsd_get_value-MsgOk : (type : ℕ) → Handles snsd_get_value type
unfolding snsd_get_value
snsd_get_value-MsgOk type buf pos len used msg fits ok =
    let P = Holds (MsgOk (used + 3 + len)) in
    if_cases P (type == 1)
      (λ e. pick snsd_get_src_ipv4 1 type e src4-MsgOk buf pos len used msg fits ok)
      λ _.
        if_cases P (type == 2)
          (λ e. pick snsd_get_dst_ipv4 2 type e dst4-MsgOk buf pos len used msg fits ok)
          λ _.
            if_cases P (type == 3)
              (λ e. pick snsd_get_src_ipv6 3 type e src6-MsgOk buf pos len used msg fits ok)
              λ _.
                if_cases P (type == 4)
                  (λ e. pick snsd_get_dst_ipv6 4 type e dst6-MsgOk buf pos len used msg fits ok)
                  λ _.
                    if_cases P (type == 5)
                      (λ e.
                        pick snsd_get_client_seq 5 type e seq-MsgOk buf pos len used msg fits ok)
                      λ _.
                        if_cases P (type == 6)
                          (λ e.
                            pick snsd_get_client_state 6 type e state-MsgOk buf pos len used msg
                              fits ok)
                          λ _.
                            if_cases P (type == 7)
                              (λ e.
                                pick snsd_get_nt_reason 7 type e reason-MsgOk buf pos len used msg
                                  fits ok)
                              λ _.
                                if_cases P (type == 8)
                                  (λ e.
                                    pick snsd_get_ad_info 8 type e ad-MsgOk buf pos len used msg
                                      fits ok)
                                  λ _. MsgOk-mono msg (omega arith) ok

sub_tlv_from-MsgOk :
    (fuel : ℕ) (buf : List ℕ) (root_pos root_len used : ℕ) (msg : NtMsg)
    → root_pos + root_len ≤ length buf
    → used ≤ root_len
    → root_len < fuel + used
    → MsgOk used msg
    → Holds (MsgOk root_len) (sub_tlv_from fuel buf root_pos root_len used msg)
unfolding sub_tlv_from
sub_tlv_from-MsgOk zero buf root_pos root_len used msg fits le more ok = absurd (omega arith)
sub_tlv_from-MsgOk (suc fuel) buf root_pos root_len used msg fits le more ok =
    let P = Holds (MsgOk root_len) in
    if_cases P (ltb root_len (used + 2)) (λ _. MsgOk-mono msg le ok)
      λ a.
        Holds->>= (λ _. Unit {0}) (MsgOk root_len) (get_elem? buf (root_pos + used)) _
          (byte_at-Holds buf (root_pos + used) (ground arith))
          λ type _.
            if_cases P (ltb root_len (used + 3)) (λ _. MsgOk-mono msg le ok)
              λ b.
                Holds->>= (λ _. Unit {0}) (MsgOk root_len) (be16_at buf (root_pos + used + 1)) _
                  (be16_at-Holds buf (root_pos + used + 1) (ground arith))
                  λ len _.
                    if_cases P (ltb root_len (used + 3 + len)) (λ _. MsgOk-mono msg le ok)
                      λ c.
                        Holds->>= (MsgOk (used + 3 + len)) (MsgOk root_len)
                          (snsd_get_value buf (root_pos + used + 3) type len msg) _
                          (snsd_get_value-MsgOk type buf (root_pos + used + 3) len used msg
                            (ground arith) ok)
                          λ msg' ok'.
                            sub_tlv_from-MsgOk fuel buf root_pos root_len (used + 3 + len) msg' fits
                              (ground arith) (omega arith) ok'

-- The sub-TLVs of a root TLV that lies within the buffer are decoded without a fault, whatever they
-- are; every field of the message keeps its size, and the fields that its map marks as received have
-- cost no more bytes than the root TLV has.
pub decode_sub_tlv-MsgOk :
    (buf : List ℕ) (root_pos root_len ver : ℕ)
    → root_pos + root_len ≤ length buf
    → Holds (MsgOk root_len) (snsd_decode_sub_tlv buf root_pos root_len (new_msg ver))
unfolding snsd_decode_sub_tlv
decode_sub_tlv-MsgOk buf root_pos root_len ver fits =
    sub_tlv_from-MsgOk (suc root_len) buf root_pos root_len 0 (new_msg ver) fits (omega arith)
      (omega arith) (new_msg-MsgOk ver)
