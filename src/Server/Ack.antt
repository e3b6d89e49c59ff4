-- ===== src/Server/Ack.antt =====
-- The acknowledgement of src/snsd_server.c, built in a fixed buffer.
use nvme_snsd.Base.{
  ℕ, ◌+◌, ◌/◌, ◌%◌, ◌||◌, ◌==◌, ltb, if◌then◌else◌, List, [], ◌∷◌, ◌++◌, Option, none, some, take,
  poke, ◌>>=◌, replicate,
}
use nvme_snsd.Net.{af_inet, af_inet6}
use nvme_snsd.Server.Message.{NtMsg}

-- `mrp_bridge`, the destination of all messages.
abbrev pub mrp_bridge : List ℕ
mrp_bridge = 0x01 ∷ 0x80 ∷ 0xc2 ∷ 0x00 ∷ 0x00 ∷ 0x0d ∷ []

-- `ETH_NTS_TYPE`, `SNSD_NTF_VER`.
abbrev pub eth_nts_type : ℕ
eth_nts_type = 0x88A7

abbrev pub snsd_ntf_ver : ℕ
snsd_ntf_ver = 1

-- `SNSD_MAX_TLV_LEN`: 1500 less the header of 8 bytes.
abbrev pub snsd_max_tlv_len : ℕ
snsd_max_tlv_len = 1492

-- `struct snsd_ack_msg_info`; `tlv_len` is in host order while the message is built.
pub record Ack : Type 0 where
  pub h_dest : List ℕ
  pub h_source : List ℕ
  pub h_proto : ℕ
  pub ver : ℕ
  pub tlv_len : ℕ
  pub payload : List ℕ

-- `snsd_init_ack_msg_buf`.
abbrev pub empty_ack : Ack
empty_ack = record {
  h_dest = replicate 6 0;
  h_source = replicate 6 0;
  h_proto = 0;
  ver = 0;
  tlv_len = 0;
  payload = replicate snsd_max_tlv_len 0;
}

-- `snsd_build_ack_header` for the address of the listener.
unfoldable pub snsd_build_ack_header : List ℕ → Ack → Ack
snsd_build_ack_header sll_addr ack = record ack {
  h_dest = mrp_bridge;
  h_source = take 6 sll_addr;
  h_proto = eth_nts_type;
  ver = snsd_ntf_ver;
}

-- `snsd_build_tlv_by_family`: tag, length in network order, the addresses and the sequence number.
unfoldable pub snsd_build_tlv_by_family : NtMsg → List ℕ → ℕ → Ack → Option Ack
snsd_build_tlv_by_family msg ip_tlv ip_tlv_len ack =
    if ltb snsd_max_tlv_len (ack.tlv_len + (ip_tlv_len + 7)) then some ack else do
      payload ←
          poke ack.payload ack.tlv_len
            (0x22 ∷ ((ip_tlv_len + 7) / 256) ∷ ((ip_tlv_len + 7) % 256) ∷ ip_tlv ++ msg.seq_num_tlv)
      some (record ack { payload = payload; tlv_len = ack.tlv_len + (3 + (ip_tlv_len + 7)) })

-- `snsd_build_ack_tlv_info`.
unfoldable pub snsd_build_ack_tlv_info : NtMsg → Ack → Option Ack
unfolding snsd_build_tlv_by_family
snsd_build_ack_tlv_info msg ack =
    if msg.family == af_inet
    then snsd_build_tlv_by_family msg (take 14 msg.ip_tlv) 14 ack
    else if msg.family == af_inet6
    then snsd_build_tlv_by_family msg (take 38 msg.ip_tlv) 38 ack
    else some ack

-- `snsd_send_ack`: the bytes that go to `sendto`, if any.
unfoldable pub snsd_send_ack : Ack → Option (List ℕ)
snsd_send_ack ack =
    if ltb snsd_max_tlv_len ack.tlv_len || (ack.tlv_len == 0)
    then none
    else some (
        ack.h_dest
        ++ (ack.h_source
            ++ ((ack.h_proto / 256)
                ∷ (ack.h_proto % 256)
                ∷ ack.ver
                ∷ 0
                ∷ (ack.tlv_len / 256)
                ∷ (ack.tlv_len % 256)
                ∷ 0
                ∷ 0
                ∷ 0
                ∷ 0
                ∷ take ack.tlv_len ack.payload)))
