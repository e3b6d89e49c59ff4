-- ===== src/Server/Queue.antt =====
-- The message nodes of src/snsd_server.c through posting and dispatching: none is lost, and the
-- messages are dispatched in the order in which they came.
use nvme_snsd.Base.{
  ℕ, suc, ◌+◌, ◌≡◌, refl, ap, sym, ◌∙◌, Bool, true, false, ◌==◌, if◌then◌else◌, if_cases, if_true,
  if_false, Bool-cases, inl, inr, List, [], ◌∷◌, ◌++◌, length, length-append, take, take-nil,
  Status, success, arith,
}
use mathlib.Core.List.{append-nil, append_assoc}
use nvme_snsd.Server.Message.{NtMsg, new_msg}
use nvme_snsd.Server.Pool.{
  MsgList, post_to, snsd_post_one_msg, Call, dispatch_one, dispatch_from, snsd_msg_dispatch,
  role_type, snsd_client,
}

-- The nodes of both lists.
abbrev pub nodes : MsgList → ℕ
nodes l = length l.msg_recv_list + length l.msg_active_list

-- The calls of a list of messages.
abbrev pub calls_of : List NtMsg → List Call
calls_of [] = []
calls_of (msg ∷ msgs) = dispatch_one msg ++ calls_of msgs

-- What happens to the two lists: a message is posted, or the active messages are dispatched.
pub data Event : Type 0 where
  post : NtMsg → Event
  dispatch : Event

-- The lists and all calls made so far.
abbrev pub happen : Event → MsgList × List Call → MsgList × List Call
happen (post msg) (l, calls) = ((snsd_post_one_msg msg l).0, calls)
happen dispatch (l, calls) = ((snsd_msg_dispatch l).0, calls ++ (snsd_msg_dispatch l).1)

abbrev pub happen_all : List Event → MsgList × List Call → MsgList × List Call
happen_all [] s = s
happen_all (e ∷ es) s = happen_all es (happen e s)

-- The messages that were accepted for dispatching.
abbrev pub is_server_msg : NtMsg → Bool
is_server_msg msg = if role_type msg == snsd_client then false else true

dispatch_from-length :
    (free msgs : List NtMsg) → length (dispatch_from free msgs).0 ≡ length free + length msgs
unfolding dispatch_from
dispatch_from-length free [] = omega arith
dispatch_from-length free (msg ∷ msgs) =
    omega (
      arith,
      dispatch_from-length (free ++ new_msg 0 ∷ []) msgs,
      length-append free (new_msg 0 ∷ []),
    )

dispatch_from-calls : (free msgs : List NtMsg) → (dispatch_from free msgs).1 ≡ calls_of msgs
unfolding dispatch_from
dispatch_from-calls free [] = refl
dispatch_from-calls free (msg ∷ msgs) =
    ap (λ c. dispatch_one msg ++ c) (dispatch_from-calls (free ++ new_msg 0 ∷ []) msgs)

post_to-nodes :
    (free : List NtMsg) (msg : NtMsg) (l : MsgList)
    → l.msg_recv_list ≡ free
    → nodes (post_to free msg l).0 ≡ nodes l
unfolding post_to
post_to-nodes [] msg l h = refl
post_to-nodes (node ∷ rest) msg l h =
    omega (arith, ap length h, length-append l.msg_active_list (msg ∷ []))

happen-nodes : (e : Event) (s : MsgList × List Call) → nodes (happen e s).0 ≡ nodes s.0
unfolding snsd_post_one_msg snsd_msg_dispatch
happen-nodes (post msg) (l, calls) =
    if_cases (λ (r : MsgList × Status). nodes r.0 ≡ nodes l) (role_type msg == snsd_client)
      (λ _. refl) λ _. post_to-nodes l.msg_recv_list msg l refl
happen-nodes dispatch (l, calls) =
    omega (arith, dispatch_from-length l.msg_recv_list l.msg_active_list)

-- However messages are posted and dispatched, no node is lost and none is made.
happen_all-nodes :
    (es : List Event) (s : MsgList × List Call) → nodes (happen_all es s).0 ≡ nodes s.0
happen_all-nodes [] s = refl
happen_all-nodes (e ∷ es) s = happen_all-nodes es (happen e s) ∙ happen-nodes e s

-- The messages that are not of a client, in their order.
abbrev pub server_msgs : List NtMsg → List NtMsg
server_msgs [] = []
server_msgs (msg ∷ msgs) =
    let rest = server_msgs msgs in if role_type msg == snsd_client then rest else msg ∷ rest

abbrev pub post_all : List NtMsg → MsgList → MsgList
post_all [] l = l
post_all (msg ∷ msgs) l = post_all msgs (snsd_post_one_msg msg l).0

-- Posting is a step on the free nodes and the active messages.
post_client :
    (msg : NtMsg) (l : MsgList)
    → (role_type msg == snsd_client) ≡ true
    → snsd_post_one_msg msg l ≡ (l, success)
unfolding snsd_post_one_msg
post_client msg l h = if_true _ _ h

post_server :
    (msg : NtMsg) (l : MsgList)
    → (role_type msg == snsd_client) ≡ false
    → snsd_post_one_msg msg l ≡ post_to l.msg_recv_list msg l
unfolding snsd_post_one_msg
post_server msg l h = if_false _ _ h

abbrev lists : List NtMsg → List NtMsg → MsgList
lists free active = record { msg_recv_list = free; msg_active_list = active }

abbrev active_after : List NtMsg → MsgList → List NtMsg
active_after msgs l = (post_all msgs l).msg_active_list

post_all-active :
    (msgs free active : List NtMsg)
    → active_after msgs (lists free active) ≡ active ++ take (length free) (server_msgs msgs)
unfolding post_to
post_all-active [] free active =
    sym (append-nil active) ∙ ap (λ m. active ++ m) (sym (take-nil (length free)))
post_all-active (msg ∷ msgs) [] active = elim (Bool-cases (role_type msg == snsd_client)) [
  | inl client ↦
      ap (λ (r : MsgList × Status). active_after msgs r.0)
        (post_client msg (lists [] active) client)
      ∙ post_all-active msgs [] active
  | inr server ↦
      ap (λ (r : MsgList × Status). active_after msgs r.0)
        (post_server msg (lists [] active) server)
      ∙ post_all-active msgs [] active
]
post_all-active (msg ∷ msgs) (node ∷ free) active =
    elim (Bool-cases (role_type msg == snsd_client)) [
      | inl client ↦
          ap (λ (r : MsgList × Status). active_after msgs r.0)
            (post_client msg (lists (node ∷ free) active) client)
          ∙ (post_all-active msgs (node ∷ free) active
              ∙ ap (λ m. active ++ take (suc (length free)) m)
                  (sym (if_true (server_msgs msgs) (msg ∷ server_msgs msgs) client)))
      | inr server ↦
          ap (λ (r : MsgList × Status). active_after msgs r.0)
            (post_server msg (lists (node ∷ free) active) server)
          ∙ (post_all-active msgs free (active ++ msg ∷ [])
              ∙ (append_assoc active (msg ∷ []) (take (length free) (server_msgs msgs))
                  ∙ ap (λ m. active ++ take (suc (length free)) m)
                      (sym (if_false (server_msgs msgs) (msg ∷ server_msgs msgs) server))))
    ]

-- When messages are posted to lists with nothing active and then dispatched, the calls are those of
-- the messages that are not of a client, in the order in which they came and as many as there were
-- free nodes.
pub post_all-dispatch :
    (msgs free : List NtMsg)
    → (snsd_msg_dispatch (post_all msgs (record { msg_recv_list = free; msg_active_list = [] }))).1
      ≡ calls_of (take (length free) (server_msgs msgs))
unfolding snsd_msg_dispatch
post_all-dispatch msgs free =
    let l = post_all msgs (lists free []) in
    dispatch_from-calls l.msg_recv_list l.msg_active_list
    ∙ ap calls_of (post_all-active msgs free [])
