-- ===== src/Server/Receive.antt =====
-- The receive path of src/snsd_server.c, `snsd_client_notify`: one message of one listener.
use nvme_snsd.Base.{
  ℕ, ◌+◌, ◌-◌, ◌≤◌, Bool, if◌then◌else◌, List, [], ◌∷◌, ◌++◌, Option, none, some, ◌>>=◌, length,
  replicate, poke, u64,
}
use nvme_snsd.Server.Ack.{snsd_build_ack_header, empty_ack, snsd_send_ack}
use nvme_snsd.Server.Decode.{Server, snsd_process_nt_msg}
use nvme_snsd.Server.Listener.{Listener, snsd_get_server_listener, snsd_listener_msg_inc}

-- What a receiving thread works on: the listeners, the messages, and the count of dropped messages.
pub record Receiver : Type 0 where
  pub listeners : List Listener
  pub server : Server
  pub drop_cnt : ℕ

-- `snsd_drop_msg_inc`.
abbrev pub drop_msg_inc : Receiver → Receiver
drop_msg_inc r = record r { drop_cnt = u64 (r.drop_cnt + 1) }

-- The receive buffer after `recvmsg`: `SNSD_RCV_BUF_LEN` bytes.
abbrev pub rcv_buf : List ℕ → List ℕ
rcv_buf bytes = bytes ++ replicate (1514 - length bytes) 0

-- The state after `snsd_process_nt_msg`, and what `snsd_send_ack` sends.
abbrev pub finish : Receiver → Bool × Server → Receiver × Option (List ℕ)
finish r (dropped, s) =
    let r' = record r { server = s } in
    (if dropped then drop_msg_inc r' else r', snsd_send_ack s.ack)

-- The rest of `snsd_client_notify` for the bytes that a listener has received.
unfoldable pub receive : Listener → List ℕ → Receiver → Option (Receiver × Option (List ℕ))
unfolding snsd_process_nt_msg
receive l bytes r = do
  ended ← poke (rcv_buf bytes) (length bytes) (0 ∷ [])
  if l.drop then some (drop_msg_inc r, none) else do
    result ←
        snsd_process_nt_msg bytes l.host_ip
          (record r.server { ack = snsd_build_ack_header l.sll_addr r.server.ack })
    some (finish r result)

-- The calls before `recvmsg`.
abbrev pub prepare : ℕ → Receiver → Receiver
prepare fd r = record r {
  listeners = snsd_listener_msg_inc fd r.listeners;
  server = record r.server { ack = empty_ack };
}

-- `recvmsg` gives the bytes, or none on an error or at the end.
unfoldable pub receive_from :
    Option Listener → ℕ → Option (List ℕ) → Receiver → Option (Receiver × Option (List ℕ))
unfolding receive
receive_from none fd bytes r = some (drop_msg_inc r, none)
receive_from (some l) fd none r = some (drop_msg_inc (prepare fd r), none)
receive_from (some l) fd (some bytes) r = receive l bytes (prepare fd r)

-- `snsd_client_notify`.
unfoldable pub snsd_client_notify :
    ℕ → Option (List ℕ) → Receiver → Option (Receiver × Option (List ℕ))
unfolding receive_from
snsd_client_notify fd bytes r = receive_from (snsd_get_server_listener fd r.listeners) fd bytes r

-- What is sent, if anything, has at most `n` bytes.
abbrev pub Sent : ℕ → Receiver × Option (List ℕ) → Type 0
Sent n (r, none) = Unit
Sent n (r, some bytes) = length bytes ≤ n
