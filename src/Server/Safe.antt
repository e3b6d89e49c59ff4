-- ===== src/Server/Safe.antt =====
-- Processing any received message: no access is out of bounds, the loops end, and the
-- acknowledgement always has room.
use nvme_snsd.Base.{
  ℕ, zero, suc, ◌+◌, ◌%◌, ◌≡◌, ◌≤◌, ◌<◌, true, not, ◌||◌, ◌==◌, ltb, List, length, length-append,
  length-take, take, arith, if_cases, Holds, Holds->>=, be16_at, byte_at-Holds, be16_at-Holds, poke,
  poke-Holds, get_elem?, test_bit, ltb, is_success,
}
use nvme_snsd.Server.Message.{NtMsg, new_msg, snsd_check_msg_complete}
use nvme_snsd.Server.Complete.{MsgOk}
use nvme_snsd.Server.Bounds.{decode_sub_tlv-MsgOk}
use nvme_snsd.Server.Pool.{snsd_post_one_msg}
use nvme_snsd.Server.Ack.{Ack, snsd_build_tlv_by_family, snsd_build_ack_tlv_info, snsd_max_tlv_len}
use nvme_snsd.Server.Decode.{
  snsd_decode_sub_tlv, Server, snsd_check_hostip_consistent, snsd_deal_one_msg, nt_tlv_from,
}

-- The acknowledgement after `pos` bytes of root TLVs: it is no longer than those.
pub record AckOk (pos : ℕ) (ack : Ack) : Type 0 where
  pub room : length ack.payload ≡ snsd_max_tlv_len
  pub macs : length ack.h_dest + length ack.h_source ≤ 12
  pub short : ack.tlv_len ≤ pos

by_family-AckOk :
    (msg : NtMsg) (ip : List ℕ) (n pos cost : ℕ) (ack : Ack)
    → length ip ≤ n
    → length msg.seq_num_tlv ≡ 7
    → n + 10 ≤ cost
    → pos + cost ≤ snsd_max_tlv_len
    → AckOk pos ack
    → Holds (AckOk (pos + cost)) (snsd_build_tlv_by_family msg ip n ack)
unfolding snsd_build_tlv_by_family
by_family-AckOk msg ip n pos cost ack ip_len seq_len enough fits ok =
    if_cases (Holds (AckOk (pos + cost))) (ltb snsd_max_tlv_len (ack.tlv_len + (n + 7)))
      (λ _. ground arith)
      λ _.
        Holds->>= (λ p. length p ≡ length ack.payload) (AckOk (pos + cost))
          (poke ack.payload ack.tlv_len _) _
          (poke-Holds ack.payload ack.tlv_len _
            (omega (arith, length-append ip msg.seq_num_tlv, ok.room, ok.short)))
          λ p e. ground arith

-- What a complete message has cost, by its family.
complete_cost :
    (n : ℕ) (msg : NtMsg)
    → MsgOk n msg
    → snsd_check_msg_complete msg.map ≡ true
    → (32 ≤ n) × (msg.family ≡ 10 → 45 ≤ n)
unfolding snsd_check_msg_complete
complete_cost n msg ok h = ground arith

ack_info-AckOk :
    (msg : NtMsg) (pos n : ℕ) (ack : Ack)
    → MsgOk n msg
    → snsd_check_msg_complete msg.map ≡ true
    → pos + (3 + n) ≤ snsd_max_tlv_len
    → AckOk pos ack
    → Holds (AckOk (pos + (3 + n))) (snsd_build_ack_tlv_info msg ack)
unfolding snsd_build_ack_tlv_info
ack_info-AckOk msg pos n ack m done fits ok =
    let P = Holds (AckOk (pos + (3 + n))) in
    let cost = complete_cost n msg m done in
    if_cases P (msg.family == 2)
      (λ _.
        by_family-AckOk msg (take 14 msg.ip_tlv) 14 pos (3 + n) ack
          (omega (arith, length-take 14 msg.ip_tlv)) m.seq_room (omega arith) fits ok)
      λ _.
        if_cases P (msg.family == 10)
          (λ v6.
            by_family-AckOk msg (take 38 msg.ip_tlv) 38 pos (3 + n) ack
              (omega (arith, length-take 38 msg.ip_tlv)) m.seq_room (ground arith) fits ok)
          λ _. ground arith

deal-AckOk :
    (host_ip : List (List ℕ)) (msg : NtMsg) (pos n : ℕ) (s : Server)
    → MsgOk n msg
    → pos + (3 + n) ≤ snsd_max_tlv_len
    → AckOk pos s.ack
    → Holds (λ s'. AckOk (pos + (3 + n)) s'.ack) (snsd_deal_one_msg host_ip msg s)
unfolding snsd_deal_one_msg
deal-AckOk host_ip msg pos n s m fits ok =
    let Q = λ (s' : Server). AckOk (pos + (3 + n)) s'.ack in
    let later : AckOk (pos + (3 + n)) s.ack = record {
      room = ok.room;
      macs = ok.macs;
      short = omega (arith, ok.short);
    } in
    if_cases (Holds Q) (snsd_check_msg_complete msg.map)
      (λ done.
        if_cases (Holds Q) (snsd_check_hostip_consistent host_ip msg)
          (λ _.
            if_cases (Holds Q) (is_success (snsd_post_one_msg msg s.msgs).1)
              (λ _.
                Holds->>= (AckOk (pos + (3 + n))) Q (snsd_build_ack_tlv_info msg s.ack) _
                  (ack_info-AckOk msg pos n s.ack m done fits ok) λ ack a. a)
              (λ _. later))
          (λ _. later))
      (λ _. later)

pub nt_tlv_from-AckOk :
    (fuel : ℕ) (buf : List ℕ) (len : ℕ) (host_ip : List (List ℕ)) (ver pos : ℕ) (s : Server)
    → len ≤ length buf
    → len ≤ snsd_max_tlv_len
    → pos ≤ len
    → len < fuel + pos
    → AckOk pos s.ack
    → Holds (λ s'. AckOk len s'.ack) (nt_tlv_from fuel buf len host_ip ver pos s)
unfolding nt_tlv_from
nt_tlv_from-AckOk zero buf len host_ip ver pos s fits cap le more ok = absurd (omega arith)
nt_tlv_from-AckOk (suc fuel) buf len host_ip ver pos s fits cap le more ok =
    let Q = λ (s' : Server). AckOk len s'.ack in
    let later : AckOk len s.ack = record {
      room = ok.room;
      macs = ok.macs;
      short = omega (arith, ok.short);
    } in
    if_cases (Holds Q) (ltb len (pos + 1)) (λ _. later)
      λ a.
        Holds->>= (λ _. Unit {0}) Q (get_elem? buf pos) _ (byte_at-Holds buf pos (ground arith))
          λ type _.
            if_cases (Holds Q) (not (test_bit type 5) || not (type % 32 == 1)) (λ _. later)
              λ _.
                if_cases (Holds Q) (ltb len (pos + 1 + 2)) (λ _. later)
                  λ b.
                    Holds->>= (λ _. Unit {0}) Q (be16_at buf (pos + 1)) _
                      (be16_at-Holds buf (pos + 1) (ground arith))
                      λ n _.
                        if_cases (Holds Q) (ltb len (pos + 3 + n)) (λ _. later)
                          λ c.
                            Holds->>= (MsgOk n) Q
                              (snsd_decode_sub_tlv buf (pos + 3) n (new_msg ver)) _
                              (decode_sub_tlv-MsgOk buf (pos + 3) n ver (ground arith))
                              λ msg m.
                                Holds->>= (λ s'. AckOk (pos + (3 + n)) s'.ack) Q
                                  (snsd_deal_one_msg host_ip msg s) _
                                  (deal-AckOk host_ip msg pos n s m (ground arith) ok)
                                  λ s' ok'.
                                    nt_tlv_from-AckOk fuel buf len host_ip ver (pos + 3 + n) s' fits
                                      cap (ground arith) (omega arith)
                                      (record {
                                        room = ok'.room;
                                        macs = ok'.macs;
                                        short = omega (arith, ok'.short);
                                      })
