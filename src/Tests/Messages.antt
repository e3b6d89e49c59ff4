-- ===== src/Tests/Messages.antt =====
-- Runs of src/snsd_server.c on concrete messages, listeners and traffic.
use nvme_snsd.Base.{
  inl, ℕ, ◌≡◌, refl, ◌⊎◌, ◌<◌, ◌≤◌, ◌+◌, ◌-◌, Bool, true, false, if◌then◌else◌, List, [], ◌∷◌, ◌++◌,
  Option, none, some, Status, success, failure, efault, einval, arith, replicate, length, take,
  drop, length-replicate, Holds,
}
use nvme_snsd.Server.Query.{Asks, snsd_build_query_tlv, build_query_tlv-Asks}
use nvme_snsd.Server.Message.{NtMsg, new_msg}
use nvme_snsd.Server.Ack.{empty_ack}
use nvme_snsd.Server.Decode.{Server, snsd_process_nt_msg}
use nvme_snsd.Server.Safe.{AckOk}
use nvme_snsd.Server.Pool.{MsgList, snsd_init_msg_resource, snsd_msg_dispatch}
use nvme_snsd.Server.Queue.{
  Event, post, dispatch, server_msgs, post_all, calls_of, post_all-dispatch,
}
use nvme_snsd.Server.Listener.{
  Listener, PortRelatedInfo, no_listener, snsd_get_server_listener, snsd_update_server_sock, claim,
  add_ip, zero_ip,
}
use nvme_snsd.Server.Sock.{SockCalls, Kept, snsd_get_server_sock, get_server_sock-listed}
use nvme_snsd.Server.Notify.{empty-AckOk, process_nt_msg_safe, client_notify_safe}
use nvme_snsd.Server.Receive.{Receiver, snsd_client_notify, Sent}

abbrev host_ip : List ℕ
host_ip = 10 ∷ 0 ∷ 0 ∷ 2 ∷ replicate 12 0

-- The sub-TLVs of a complete message for an IPv4 address, in version 1.
abbrev sub_tlvs : List ℕ
sub_tlvs =
    1 ∷ 0 ∷ 4 ∷ 10 ∷ 0 ∷ 0 ∷ 1 ∷ 2 ∷ 0 ∷ 4 ∷ 10 ∷ 0 ∷ 0 ∷ 2 ∷ 5 ∷ 0 ∷ 4 ∷ 0 ∷ 0 ∷ 0 ∷ 9 ∷ 6 ∷ 0 ∷ 4
    ∷ 0 ∷ 0 ∷ 0 ∷ 1 ∷ 7 ∷ 0 ∷ 4 ∷ 0 ∷ 0 ∷ 0 ∷ 1 ∷ 8 ∷ 0 ∷ 7 ∷ 1 ∷ 1 ∷ 0 ∷ 0 ∷ 0 ∷ 0 ∷ 0 ∷ []

abbrev message : List ℕ
message =
    0x01 ∷ 0x80 ∷ 0xc2 ∷ 0 ∷ 0 ∷ 0x0d ∷ 2 ∷ 0 ∷ 0 ∷ 0 ∷ 0 ∷ 7 ∷ 0x88 ∷ 0xA7 ∷ 1 ∷ 0 ∷ 0 ∷ 48 ∷ 0 ∷ 0
    ∷ 0 ∷ 0 ∷ 0x21 ∷ 0 ∷ 45 ∷ sub_tlvs

abbrev listener : Listener
listener = record no_listener { listening_fd = some 5; host_ip = host_ip ∷ [] }

abbrev server : Server
server = record { msgs = snsd_init_msg_resource 2; ack = empty_ack }

abbrev receiver : Receiver
receiver = record { listeners = listener ∷ []; server = server; drop_cnt = 0 }

-- The complete message is acknowledged in 46 bytes: the header, a tag, two addresses and the number.
ack_length : Option (Receiver × Option (List ℕ)) → ℕ
ack_length none = 0
ack_length (some (r, none)) = 1
ack_length (some (r, some bytes)) = length bytes

message_acknowledged : ack_length (snsd_client_notify 5 (some message) receiver) ≡ 46
unfolding ack_length snsd_client_notify snsd_get_server_listener nvme_snsd.Base.poke
    nvme_snsd.Base.be16_at nvme_snsd.Base.slice nvme_snsd.Net.mem_eq
    nvme_snsd.Server.Message.snsd_get_value new_msg nvme_snsd.Server.Message.snsd_check_msg_complete
    nvme_snsd.Net.snsd_ip_match nvme_snsd.Server.Pool.snsd_post_one_msg snsd_init_msg_resource
    nvme_snsd.Server.Ack.snsd_build_ack_tlv_info nvme_snsd.Server.Ack.snsd_build_ack_header
    nvme_snsd.Server.Ack.snsd_send_ack
message_acknowledged = refl

client_notify_safe_example :
    Holds (Sent (length message)) (snsd_client_notify 5 (some message) receiver)
client_notify_safe_example = client_notify_safe 5 message receiver (omega arith)

process_nt_msg_safe_example :
    Holds
      (λ r. AckOk (length message - 22) r.1.ack)
      (snsd_process_nt_msg message (host_ip ∷ []) server)
process_nt_msg_safe_example = process_nt_msg_safe message (host_ip ∷ []) server empty-AckOk

abbrev longest : List ℕ
longest = replicate 1514 0

listener_found : snsd_get_server_listener 5 receiver.listeners ≡ some listener
unfolding snsd_get_server_listener
listener_found = refl

-- Posting and dispatching.
abbrev one_msg : NtMsg
one_msg = record (new_msg 1) { state = 1 }

abbrev events : List Event
events = post one_msg ∷ post one_msg ∷ dispatch ∷ post one_msg ∷ []

abbrev two_free : List NtMsg
two_free = new_msg 0 ∷ new_msg 0 ∷ []

abbrev three_msgs : List NtMsg
three_msgs = one_msg ∷ one_msg ∷ one_msg ∷ []

post_all-dispatch_example :
    (snsd_msg_dispatch
      (post_all three_msgs (record { msg_recv_list = two_free; msg_active_list = [] }))).1
    ≡ calls_of (take 2 (server_msgs three_msgs))
post_all-dispatch_example = post_all-dispatch three_msgs two_free

-- Listeners.
abbrev port : PortRelatedInfo
port = record { name = 101 ∷ []; family = 2; ip = host_ip; mac = replicate 6 7; ifindex = 3 }

abbrev empty_table : List Listener
empty_table = no_listener ∷ no_listener ∷ []

not_there : snsd_get_server_listener 7 empty_table ≡ none
unfolding snsd_get_server_listener
not_there = refl

room : (snsd_update_server_sock 7 port empty_table).1 ≡ success
unfolding snsd_update_server_sock
room = refl

-- epoll does not take the socket.
abbrev not_watched : SockCalls
not_watched = record {
  opened = some 7;
  bound = success;
  options_set = success;
  epoll = failure efault;
}

get_server_sock-listed_example :
    Kept 7 (failure efault) (snsd_get_server_sock not_watched port empty_table)
    × ((l : Listener) × (snsd_get_server_listener 7
            (snsd_get_server_sock not_watched port empty_table).listeners
          ≡ some (claim 7 port l)))
get_server_sock-listed_example =
    get_server_sock-listed not_watched 7 port empty_table refl refl refl not_there room

abbrev two_places : List (List ℕ)
two_places = zero_ip ∷ zero_ip ∷ []

added : (add_ip host_ip two_places).1 ≡ success
unfolding add_ip nvme_snsd.Net.mem_eq
added = refl

-- The attack monitor.
abbrev flooded : Listener
flooded = record no_listener { rcv_cnt = 600 }

abbrev dropping : Listener
dropping = record no_listener { rcv_cnt = 600; last_samp_cnt = 600; drop = true }

abbrev traffic : List ℕ
traffic = 10 ∷ 700 ∷ 20 ∷ []

-- An attack after 10 calm samples, and then 10 more.
abbrev attacked_again : List ℕ
attacked_again = replicate 10 0 ++ 900 ∷ replicate 10 0

-- The query of a port.
build_query_tlv-Asks_example :
    Asks 2
      (10 ∷ 0 ∷ 0 ∷ 2 ∷ replicate 12 0)
      (snsd_build_query_tlv 2 (10 ∷ 0 ∷ 0 ∷ 2 ∷ replicate 12 0) (2 ∷ 0 ∷ 0 ∷ 0 ∷ 0 ∷ 7 ∷ []))
build_query_tlv-Asks_example =
    build_query_tlv-Asks 2 0 0 0 0 7 10 0 0 2 0 0 0 0 0 0 0 0 0 0 0 0 2 (inl refl)
