-- ===== src/Server/Pool.antt =====
-- The message nodes of src/snsd_server.c: a free list, and the list of messages to dispatch.
use nvme_snsd.Base.{
  c_string, ℕ, ◌+◌, ◌*◌, ◌%◌, Bool, ◌||◌, ◌==◌, if◌then◌else◌, List, [], ◌∷◌, ◌++◌, take, drop,
  get_or, set, Status, success, failure, eminus1, replicate,
}
use nvme_snsd.Net.{ConnectParam, sw, af_inet}
use nvme_snsd.Server.Message.{NtMsg, new_msg}

-- `struct snsd_msg_list`: the contents of the nodes of its two lists.
pub record MsgList : Type 0 where
  pub msg_recv_list : List NtMsg
  pub msg_active_list : List NtMsg

-- `SNSD_MAX_MSG_NUM`.
abbrev pub snsd_max_msg_num : ℕ
snsd_max_msg_num = 1000

-- `snsd_init_msg_resource`, where there is memory for all nodes; `n` is `SNSD_MAX_MSG_NUM`.
unfoldable pub snsd_init_msg_resource : ℕ → MsgList
snsd_init_msg_resource n = record { msg_recv_list = replicate n (new_msg 0); msg_active_list = [] }

-- The role in the additional information of a message, and the value of a client.
abbrev pub role_type : NtMsg → ℕ
role_type msg = get_or msg.ad_info 0 0

abbrev pub snsd_client : ℕ
snsd_client = 2

-- `snsd_post_one_msg` on the free list: the first free node is taken.
unfoldable pub post_to : List NtMsg → NtMsg → MsgList → MsgList × Status
post_to [] msg l = (l, failure eminus1)
post_to (node ∷ rest) msg l =
    (record l { msg_recv_list = rest; msg_active_list = l.msg_active_list ++ msg ∷ [] }, success)

unfoldable pub snsd_post_one_msg : NtMsg → MsgList → MsgList × Status
unfolding post_to
snsd_post_one_msg msg l =
    if role_type msg == snsd_client then (l, success) else post_to l.msg_recv_list msg l

-- A call of the connection component that the dispatcher makes.
pub data Call : Type 0 where
  call_connect call_disconnect : ConnectParam → Call

-- A zeroed array of `n` bytes with `bytes` copied to its start.
abbrev pub padded : ℕ → List ℕ → List ℕ
padded n bytes = take n (bytes ++ replicate n 0)

-- `reason == NOTIFY_REASON_CHANGE_ZONE || ... CHANGE_IP || ... LLDP_AGE_OUT`.
abbrev pub forces_disconnect : ℕ → Bool
forces_disconnect reason = (reason == 4) || ((reason == 5) || (reason == 6))

-- The parameters that `snsd_connect_change` builds.
unfoldable pub connect_param : NtMsg → ConnectParam
connect_param msg = record {
  protocol = get_or msg.ad_info 1 0;
  portid = get_or msg.ad_info 4 0 + 256 * get_or msg.ad_info 5 0;
  family = msg.family;
  traddr =
      if msg.family == af_inet
      then padded 16 (take 4 (drop 3 msg.ip_tlv))
      else take 16 (drop 3 msg.ip_tlv);
  host_traddr =
      if msg.family == af_inet
      then padded 16 (take 4 (drop 10 msg.ip_tlv))
      else take 16 (drop 22 msg.ip_tlv);
  subsysnqn = set (padded 256 (c_string (take 256 (drop 7 msg.ad_info)))) 255 0;
  mode = sw;
  action_flag = 0;
}

-- `snsd_connect_change`: the call that it makes. `type` is `NOTIFY_HOST_INACTIVE` (0) or
-- `NOTIFY_HOST_ACTIVE` (1).
unfoldable pub snsd_connect_change : NtMsg → ℕ → Call
unfolding connect_param
snsd_connect_change msg type =
    if type == 1
    then call_connect (connect_param msg)
    else call_disconnect (record (connect_param msg) {
      action_flag = if forces_disconnect msg.nt_reason then 1 else 0;
    })

-- The body of the loop of `snsd_msg_dispatch`. The state is cut to an `unsigned char`.
unfoldable pub dispatch_one : NtMsg → List Call
unfolding snsd_connect_change
dispatch_one msg =
    if (msg.state % 256 == 1) || (msg.state % 256 == 0)
    then snsd_connect_change msg (msg.state % 256) ∷ []
    else []

-- `snsd_msg_dispatch`: the calls in their order; each node goes zeroed to the end of the free list.
unfoldable pub dispatch_from : List NtMsg → List NtMsg → List NtMsg × List Call
unfolding dispatch_one
dispatch_from free [] = (free, [])
dispatch_from free (msg ∷ msgs) =
    let (free', calls) = dispatch_from (free ++ new_msg 0 ∷ []) msgs in
    (free', dispatch_one msg ++ calls)

unfoldable pub snsd_msg_dispatch : MsgList → MsgList × List Call
unfolding dispatch_from
snsd_msg_dispatch l =
    let (free, calls) = dispatch_from l.msg_recv_list l.msg_active_list in
    (record { msg_recv_list = free; msg_active_list = [] }, calls)
