-- ===== src/Server/Notify.antt =====
-- The receive path of src/snsd_server.c has no fault: the header, the whole message, and
-- `snsd_client_notify`.
use nvme_snsd.Base.{
  ap, ◌∙◌, ◌/◌, ◌%◌, ℕ, suc, ◌+◌, ◌-◌, ◌≡◌, ◌≤◌, ◌<◌, ◌||◌, ltb, List, [], ◌∷◌, ◌++◌, Option, none,
  some, length, length-append, length-take, length-drop, length-replicate, take, drop, replicate,
  arith, if_cases, Holds, Holds->>=, byte_at-Holds, be16_at, be16_at-Holds, slice, slice-Holds,
  get_elem?, poke, poke-Holds, poke-none,
}
use nvme_snsd.Server.Ack.{
  Ack, snsd_ntf_ver, snsd_build_ack_header, empty_ack, snsd_send_ack, snsd_max_tlv_len,
}
use nvme_snsd.Server.Decode.{
  Header, rejected, accepted, snsd_get_msg_header, Server, snsd_decode_nt_tlv, process_header,
  snsd_process_nt_msg,
}
use nvme_snsd.Server.Safe.{AckOk, nt_tlv_from-AckOk}
use nvme_snsd.Server.Listener.{Listener, snsd_get_server_listener}
use nvme_snsd.Server.Receive.{
  Receiver, rcv_buf, finish, receive, prepare, receive_from, snsd_client_notify, Sent,
}

-- What `snsd_get_msg_header` promises of a buffer.
abbrev pub HeaderOk : List ℕ → Header → Type 0
HeaderOk buf rejected = Unit {0}
HeaderOk buf (accepted tlv_len ver) =
    (0 < tlv_len) × (22 + tlv_len ≤ length buf) × (length buf ≤ 1514) × (ver ≤ snsd_ntf_ver)

-- The header of any received message is read without a fault; where it is accepted, the TLVs lie
-- within the bytes received, there are some, and the version is known.
pub get_msg_header-HeaderOk :
    (buf : List ℕ) → Holds (HeaderOk buf) (snsd_get_msg_header buf (length buf))
unfolding snsd_get_msg_header
get_msg_header-HeaderOk buf =
    if_cases (Holds (HeaderOk buf)) (ltb (length buf) 22 || ltb 1514 (length buf)) (λ _. tt)
      λ e.
        Holds->>= (λ _. Unit {0}) (HeaderOk buf) (be16_at buf 12) _
          (be16_at-Holds buf 12 (ground arith))
          λ proto _.
            Holds->>= (λ dest. length dest ≡ 6) (HeaderOk buf) (slice buf 0 6) _
              (slice-Holds buf 0 6 (ground arith))
              λ dest _.
                Holds->>= (λ _. Unit {0}) (HeaderOk buf) (get_elem? buf 14) _
                  (byte_at-Holds buf 14 (ground arith))
                  λ ver _.
                    Holds->>= (λ _. Unit {0}) (HeaderOk buf) (be16_at buf 16) _
                      (be16_at-Holds buf 16 (ground arith)) λ n _. ground arith

decode_nt_tlv-AckOk :
    (buf : List ℕ) (len : ℕ) (host_ip : List (List ℕ)) (ver : ℕ) (s : Server)
    → len ≤ length buf
    → len ≤ snsd_max_tlv_len
    → AckOk 0 s.ack
    → Holds (λ s'. AckOk len s'.ack) (snsd_decode_nt_tlv buf len host_ip ver s)
unfolding snsd_decode_nt_tlv
decode_nt_tlv-AckOk buf len host_ip ver s fits cap ok =
    nt_tlv_from-AckOk (suc len) buf len host_ip ver 0 s fits cap (omega arith) (omega arith) ok

process_header-AckOk :
    (header : Header) (buf : List ℕ) (host_ip : List (List ℕ)) (s : Server)
    → HeaderOk buf header
    → AckOk 0 s.ack
    → Holds (λ r. AckOk (length buf - 22) r.1.ack) (process_header header buf host_ip s)
unfolding process_header
process_header-AckOk rejected buf host_ip s h ok = record {
  room = ok.room;
  macs = ok.macs;
  short = omega (arith, ok.short);
}
process_header-AckOk (accepted n ver) buf host_ip s h ok =
    Holds->>= (λ s'. AckOk n s'.ack) (λ r. AckOk (length buf - 22) r.1.ack)
      (snsd_decode_nt_tlv (drop 22 buf) n host_ip ver s) _
      (decode_nt_tlv-AckOk (drop 22 buf) n host_ip ver s (omega (arith, length-drop 22 buf, h))
        (omega (arith, h)) ok)
      λ s' a. record { room = a.room; macs = a.macs; short = omega (arith, a.short, h) }

-- On an acknowledgement that is empty, with its full buffer, any received bytes are processed to
-- the end: no byte outside them is read, no field and no buffer is overrun, the loops end, and the
-- TLVs of the acknowledgement take at least 22 bytes less than what was received, or none.
pub process_nt_msg_safe :
    (buf : List ℕ) (host_ip : List (List ℕ)) (s : Server)
    → AckOk 0 s.ack
    → Holds (λ r. AckOk (length buf - 22) r.1.ack) (snsd_process_nt_msg buf host_ip s)
unfolding snsd_process_nt_msg
process_nt_msg_safe buf host_ip s ok =
    Holds->>= (HeaderOk buf) (λ r. AckOk (length buf - 22) r.1.ack)
      (snsd_get_msg_header buf (length buf)) _ (get_msg_header-HeaderOk buf)
      λ header h. process_header-AckOk header buf host_ip s h ok

send_ack-length :
    (n : ℕ) (r : Receiver) (ack : Ack) → AckOk (n - 22) ack → Sent n (r, snsd_send_ack ack)
unfolding snsd_send_ack
send_ack-length n r ack ok =
    let tail =
      (ack.h_proto / 256)
      ∷ (ack.h_proto % 256)
      ∷ ack.ver
      ∷ 0
      ∷ (ack.tlv_len / 256)
      ∷ (ack.tlv_len % 256)
      ∷ 0
      ∷ 0
      ∷ 0
      ∷ 0
      ∷ take ack.tlv_len ack.payload in
    ground (
      arith,
      ok.macs,
      ok.short,
      length-append ack.h_dest (ack.h_source ++ tail),
      length-append ack.h_source tail,
      length-take ack.tlv_len ack.payload,
    )

pub empty-AckOk : AckOk 0 empty_ack
empty-AckOk = record {
  room = length-replicate {A = ℕ} snsd_max_tlv_len 0;
  macs = omega arith;
  short = omega arith;
}

build_header-AckOk :
    (sll_addr : List ℕ) (ack : Ack) → AckOk 0 ack → AckOk 0 (snsd_build_ack_header sll_addr ack)
unfolding snsd_build_ack_header
build_header-AckOk sll_addr ack ok = record {
  room = ok.room;
  macs = omega (arith, length-take 6 sll_addr);
  short = ok.short;
}

receive-Sent :
    (l : Listener) (bytes : List ℕ) (r : Receiver)
    → length bytes < 1514
    → AckOk 0 r.server.ack
    → Holds (Sent (length bytes)) (receive l bytes r)
unfolding receive
receive-Sent l bytes r h ok =
    let Q : Receiver × Option (List ℕ) → Type 0 = Sent (length bytes) in
    Holds->>= (λ p. length p ≡ length (rcv_buf bytes)) Q
      (poke (rcv_buf bytes) (length bytes) (0 ∷ [])) _
      (poke-Holds (rcv_buf bytes) (length bytes) (0 ∷ []) (
        omega (
          arith,
          length-append bytes (replicate (1514 - length bytes) 0),
          length-replicate {A = ℕ} (1514 - length bytes) 0,
        )))
      λ ended _.
        if_cases (Holds Q) l.drop (λ _. tt)
          λ _.
            Holds->>= (λ r. AckOk (length bytes - 22) r.1.ack) Q
              (snsd_process_nt_msg bytes l.host_ip
                (record r.server { ack = snsd_build_ack_header l.sll_addr r.server.ack }))
              _
              (process_nt_msg_safe bytes l.host_ip _
                (build_header-AckOk l.sll_addr r.server.ack ok))
              λ result ok. send_ack-length (length bytes) (finish r result).0 result.1.ack ok

receive_from-Sent :
    (l : Option Listener) (fd : ℕ) (bytes : List ℕ) (r : Receiver)
    → length bytes < 1514
    → Holds (Sent (length bytes)) (receive_from l fd (some bytes) r)
unfolding receive_from
receive_from-Sent none fd bytes r h = tt
receive_from-Sent (some l) fd bytes r h = receive-Sent l bytes (prepare fd r) h empty-AckOk

-- Whatever fewer than 1514 bytes arrive at whatever socket, they are handled to the end without a
-- fault, and the acknowledgement, if one is sent, is no longer than what arrived.
pub client_notify_safe :
    (fd : ℕ) (bytes : List ℕ) (r : Receiver)
    → length bytes < 1514
    → Holds (Sent (length bytes)) (snsd_client_notify fd (some bytes) r)
unfolding snsd_client_notify
client_notify_safe fd bytes r h =
    receive_from-Sent (snsd_get_server_listener fd r.listeners) fd bytes r h

rcv_buf-full :
    (bytes : List ℕ) → length bytes ≡ 1514 → poke (rcv_buf bytes) (length bytes) (0 ∷ []) ≡ none
rcv_buf-full bytes h = poke-none (rcv_buf bytes) (length bytes) (0 ∷ []) (
    omega (
      arith,
      length-append bytes (replicate (1514 - length bytes) 0),
      length-replicate {A = ℕ} (1514 - length bytes) 0,
    ))

receive-overrun :
    (l : Listener) (bytes : List ℕ) (r : Receiver) → length bytes ≡ 1514 → receive l bytes r ≡ none
unfolding receive
receive-overrun l bytes r h = rw (rcv_buf-full bytes h)

receive_from-overrun :
    (l : Listener) (fd : ℕ) (bytes : List ℕ) (r : Receiver)
    → length bytes ≡ 1514
    → receive_from (some l) fd (some bytes) r ≡ none
unfolding receive_from
receive_from-overrun l fd bytes r h = receive-overrun l bytes (prepare fd r) h

-- A message of exactly 1514 bytes, the longest that the header check accepts, has the final zero
-- written outside the receive buffer, whichever listener it came to.
client_notify_overrun :
    (fd : ℕ) (bytes : List ℕ) (r : Receiver) (l : Listener)
    → snsd_get_server_listener fd r.listeners ≡ some l
    → length bytes ≡ 1514
    → snsd_client_notify fd (some bytes) r ≡ none
unfolding snsd_client_notify
client_notify_overrun fd bytes r l found h =
    ap (λ o. receive_from o fd (some bytes) r) found ∙ receive_from-overrun l fd bytes r h
