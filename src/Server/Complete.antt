-- ===== src/Server/Complete.antt =====
-- What a message has cost and what it holds: no handler reads or writes out of bounds, and every bit
-- of the map was paid for by a sub-TLV of the message.
use nvme_snsd.Base.{
  ℕ, ◌+◌, ◌*◌, ◌/◌, ◌%◌, ◌≡◌, ◌≤◌, ◌<◌, true, not, ◌==◌, ltb, List, ◌++◌, Option, ◌>>=◌, slice,
  poke, or_bit, u16, length, length-append, arith, subst, if_cases, Holds, Holds->>=, slice-Holds,
  poke-Holds,
}
use nvme_snsd.Server.Message.{
  NtMsg, new_msg, tl_info, copy_ip, snsd_get_src_ipv4, snsd_get_dst_ipv4, snsd_get_src_ipv6,
  snsd_get_dst_ipv6, snsd_get_client_seq, snsd_check_state_len, snsd_check_reason_len,
  snsd_get_client_state, snsd_get_nt_reason, snsd_get_ad_info,
}

-- The bytes of the smallest sub-TLVs that set the bits of the map.
abbrev pub weight : ℕ → ℕ
weight map =
    7 * (map % 2)
    + 7 * (map / 2 % 2)
    + 19 * (map / 4 % 2)
    + 19 * (map / 8 % 2)
    + 7 * (map / 16 % 2)
    + 4 * (map / 32 % 2)
    + 4 * (map / 64 % 2)
    + 3 * (map / 128 % 2)

-- A message after `used` bytes of its sub-TLVs.
pub record MsgOk (used : ℕ) (msg : NtMsg) : Type 0 where
  pub small : msg.map < 256
  pub paid : weight msg.map ≤ used
  pub ip_room : length msg.ip_tlv ≡ 38
  pub seq_room : length msg.seq_num_tlv ≡ 7
  pub ad_room : length msg.ad_info ≡ 263
  -- Where the source bit of one family only is set, that is the family of the message.
  pub is_ipv4 : msg.map % 2 ≡ 1 → msg.map / 4 % 2 ≡ 0 → msg.family ≡ 2
  pub is_ipv6 : msg.map % 2 ≡ 0 → msg.map / 4 % 2 ≡ 1 → msg.family ≡ 10

pub new_msg-MsgOk : (ver : ℕ) → MsgOk 0 (new_msg ver)
unfolding new_msg
new_msg-MsgOk ver = ground arith

pub MsgOk-mono : {n m : ℕ} (msg : NtMsg) → n ≤ m → MsgOk n msg → MsgOk m msg
MsgOk-mono msg h ok = ground arith

-- The map after a bit that is no source bit.
abbrev Marks : ℕ → ℕ → Type 0
Marks k cost =
    (m : ℕ)
    → m < 256
    → (u16 (or_bit m k) < 256)
      × (weight (u16 (or_bit m k)) ≤ weight m + cost)
      × (u16 (or_bit m k) % 2 ≡ m % 2)
      × (u16 (or_bit m k) / 4 % 2 ≡ m / 4 % 2)

mark_dst4 : Marks 1 7
mark_dst4 m h = ground arith

mark_dst6 : Marks 3 19
mark_dst6 m h = ground arith

mark_seq : Marks 4 7
mark_seq m h = ground arith

mark_state : Marks 5 4
mark_state m h = ground arith

mark_reason : Marks 6 4
mark_reason m h = ground arith

mark_ad : Marks 7 3
mark_ad m h = ground arith

mark_src4 :
    (m : ℕ)
    → m < 256
    → (u16 (or_bit m 0) < 256)
      × (weight (u16 (or_bit m 0)) ≤ weight m + 7)
      × (u16 (or_bit m 0) % 2 ≡ 1)
      × (u16 (or_bit m 0) / 4 % 2 ≡ m / 4 % 2)
mark_src4 m h = ground arith

mark_src6 :
    (m : ℕ)
    → m < 256
    → (u16 (or_bit m 2) < 256)
      × (weight (u16 (or_bit m 2)) ≤ weight m + 19)
      × (u16 (or_bit m 2) % 2 ≡ m % 2)
      × (u16 (or_bit m 2) / 4 % 2 ≡ 1)
mark_src6 m h = ground arith

-- What a handler owes: a value of `len` bytes at `pos` costs those and the 3 bytes before it.
abbrev pub Handles : (List ℕ → ℕ → ℕ → ℕ → NtMsg → Option NtMsg) → ℕ → Type 0
Handles handler type =
    (buf : List ℕ) (pos len used : ℕ) (msg : NtMsg)
    → pos + len ≤ length buf
    → MsgOk used msg
    → Holds (MsgOk (used + 3 + len)) (handler buf pos type len msg)

-- A copy of `n` bytes behind a header, into an array that has the room.
copied :
    (P : NtMsg → Type 0) (buf : List ℕ) (pos n : ℕ) (dest head : List ℕ) (place : ℕ)
    → (k : List ℕ → Option NtMsg) → pos + n ≤ length buf
    → place + (length head + n) ≤ length dest
    → ((d : List ℕ) → length d ≡ length dest → Holds P (k d))
    → Holds P (slice buf pos n >>= λ b. poke dest place (head ++ b) >>= k)
copied P buf pos n dest head place k fits room then_ =
    Holds->>= (λ b. length b ≡ n) P (slice buf pos n) _ (slice-Holds buf pos n fits)
      λ b e.
        Holds->>= (λ d. length d ≡ length dest) P (poke dest place (head ++ b)) _
          (poke-Holds dest place (head ++ b) (omega (arith, length-append head b))) then_

pub seq-MsgOk : Handles snsd_get_client_seq 5
unfolding snsd_get_client_seq
seq-MsgOk buf pos len used msg fits ok =
    if_cases (Holds (MsgOk (used + 3 + len))) (not (len == 4))
      (λ _. MsgOk-mono msg (omega arith) ok)
      λ e.
        copied (MsgOk (used + 3 + len)) buf pos 4 msg.seq_num_tlv (tl_info 5 len) 0 _ (ground arith)
          (omega arith) λ d n. ground (arith, mark_seq msg.map)

pub src4-MsgOk : Handles snsd_get_src_ipv4 1
unfolding snsd_get_src_ipv4
src4-MsgOk buf pos len used msg fits ok =
    if_cases (Holds (MsgOk (used + 3 + len))) (not (len == 4))
      (λ _. MsgOk-mono msg (omega arith) ok)
      λ e.
        Holds->>= (λ m. MsgOk (used + 3 + len) (record m { family = 2 })) (MsgOk (used + 3 + len))
          (copy_ip 4 0 buf pos 1 msg) _
          (copied (λ m. MsgOk (used + 3 + len) (record m { family = 2 })) buf pos 4 msg.ip_tlv
            (tl_info 1 4) 0 _ (ground arith) (omega arith) λ d n. ground (arith, mark_src4 msg.map))
          λ m h. h

pub src6-MsgOk : Handles snsd_get_src_ipv6 3
unfolding snsd_get_src_ipv6
src6-MsgOk buf pos len used msg fits ok =
    if_cases (Holds (MsgOk (used + 3 + len))) (not (len == 16))
      (λ _. MsgOk-mono msg (omega arith) ok)
      λ e.
        Holds->>= (λ m. MsgOk (used + 3 + len) (record m { family = 10 })) (MsgOk (used + 3 + len))
          (copy_ip 16 0 buf pos 3 msg) _
          (copied (λ m. MsgOk (used + 3 + len) (record m { family = 10 })) buf pos 16 msg.ip_tlv
            (tl_info 3 16) 0 _ (ground arith) (omega arith)
            λ d n. ground (arith, mark_src6 msg.map))
          λ m h. h

pub dst4-MsgOk : Handles snsd_get_dst_ipv4 2
unfolding snsd_get_dst_ipv4
dst4-MsgOk buf pos len used msg fits ok =
    if_cases (Holds (MsgOk (used + 3 + len))) (not (len == 4))
      (λ _. MsgOk-mono msg (omega arith) ok)
      λ e.
        copied (MsgOk (used + 3 + len)) buf pos 4 msg.ip_tlv (tl_info 2 4) 7 _ (ground arith)
          (omega arith) λ d n. ground (arith, mark_dst4 msg.map)

pub dst6-MsgOk : Handles snsd_get_dst_ipv6 4
unfolding snsd_get_dst_ipv6
dst6-MsgOk buf pos len used msg fits ok =
    if_cases (Holds (MsgOk (used + 3 + len))) (not (len == 16))
      (λ _. MsgOk-mono msg (omega arith) ok)
      λ e.
        copied (MsgOk (used + 3 + len)) buf pos 16 msg.ip_tlv (tl_info 4 16) 19 _ (ground arith)
          (omega arith) λ d n. ground (arith, mark_dst6 msg.map)

state_len_pos : (ver len : ℕ) → snsd_check_state_len ver len ≡ true → 1 ≤ len
unfolding snsd_check_state_len
state_len_pos ver len h = ground arith

reason_len_pos : (ver len : ℕ) → snsd_check_reason_len ver len ≡ true → 1 ≤ len
unfolding snsd_check_reason_len
reason_len_pos ver len h = ground arith

pub state-MsgOk : Handles snsd_get_client_state 6
unfolding snsd_get_client_state
state-MsgOk buf pos len used msg fits ok =
    if_cases (Holds (MsgOk (used + 3 + len))) (not (snsd_check_state_len msg.ver len))
      (λ _. MsgOk-mono msg (omega arith) ok)
      λ e.
        Holds->>= (λ b. length b ≡ len) (MsgOk (used + 3 + len)) (slice buf pos len) _
          (slice-Holds buf pos len fits)
          λ b n. ground (arith, mark_state msg.map, state_len_pos msg.ver len)

pub reason-MsgOk : Handles snsd_get_nt_reason 7
unfolding snsd_get_nt_reason
reason-MsgOk buf pos len used msg fits ok =
    if_cases (Holds (MsgOk (used + 3 + len))) (not (snsd_check_reason_len msg.ver len))
      (λ _. MsgOk-mono msg (omega arith) ok)
      λ e.
        Holds->>= (λ b. length b ≡ len) (MsgOk (used + 3 + len)) (slice buf pos len) _
          (slice-Holds buf pos len fits)
          λ b n. ground (arith, mark_reason msg.map, reason_len_pos msg.ver len)

pub ad-MsgOk : Handles snsd_get_ad_info 8
unfolding snsd_get_ad_info
ad-MsgOk buf pos len used msg fits ok =
    if_cases (Holds (MsgOk (used + 3 + len))) (ltb 262 len) (λ _. MsgOk-mono msg (omega arith) ok)
      λ e.
        Holds->>= (λ b. length b ≡ len) (MsgOk (used + 3 + len)) (slice buf pos len) _
          (slice-Holds buf pos len fits)
          λ b n.
            Holds->>= (λ d. length d ≡ 263) (MsgOk (used + 3 + len)) (poke msg.ad_info 0 b) _
              (subst (λ k. Holds (λ d. length d ≡ k) (poke msg.ad_info 0 b)) ok.ad_room
                (poke-Holds msg.ad_info 0 b (ground arith)))
              λ d m.
                Holds->>= (λ d'. length d' ≡ length d) (MsgOk (used + 3 + len)) (poke d 4 _) _
                  (poke-Holds d 4 _ (omega arith)) λ d' m'. ground (arith, mark_ad msg.map)
