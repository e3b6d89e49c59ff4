-- ===== src/Direct.antt =====
-- src/snsd_direct.c: the ports in direct mode. Each port that is up is connected once, and each one
-- that goes down or is no longer configured is disconnected.
use nvme_snsd.Base.{
  ℕ, ◌≡◌, refl, Bool, true, false, ◌&&◌, not, ◌==◌, if◌then◌else◌, List, [], ◌∷◌, ◌++◌, replicate,
  get_elem?, arith, Status, success, is_success, All, All-append, take, if_cases,
}
use nvme_snsd.Net.{ConnectParam, dc, is_linkup}
use nvme_snsd.Connect.{
  Added, snsd_connect, snsd_disconnect, Templates, registered, connect-success, disconnect-success,
}

-- `direct_info.state`.
pub data State : Type 0 where
  connect_ini connected disconnected : State

abbrev pub is_connected : State → Bool
is_connected connect_ini = false
is_connected connected = true
is_connected disconnected = false

-- `struct snsd_net_info`, what this file reads of it.
pub record NetInfo : Type 0 where
  pub protocol : ℕ
  pub family : ℕ
  pub tgtip : List ℕ
  pub ip : List ℕ
  pub flags : ℕ
  pub count : ℕ
  pub state : State

-- The parameters that `direct_port_handle` builds of a port.
unfoldable pub direct_param : NetInfo → ConnectParam
direct_param net = record {
  protocol = net.protocol;
  portid = 0;
  family = net.family;
  traddr = take 16 net.tgtip;
  host_traddr = take 16 net.ip;
  subsysnqn = replicate 256 0;
  mode = dc;
  action_flag = 0;
}

abbrev advance : NetInfo → State → List Added × Status → NetInfo × List Added
advance net next (added, result) =
    (if is_success result then record net { state = next } else net, added)

module _ (worker : ConnectParam → Status) (ts : Templates) where
  -- `direct_connect_handle`; `IFF_RUNNING` of the flags.
  unfoldable pub direct_connect_handle : NetInfo → ConnectParam → NetInfo × List Added
  direct_connect_handle net connect =
      if not (is_connected net.state) && is_linkup net.flags
      then advance net connected (snsd_connect worker ts connect)
      else if is_connected net.state && not (is_linkup net.flags)
      then advance net disconnected (snsd_disconnect worker ts connect)
      else (net, [])

  -- The body of the loop: what is left of the port, and the additions.
  unfoldable pub direct_one : ℕ → NetInfo → List NetInfo × List Added
  unfolding direct_connect_handle direct_param
  direct_one count net =
      if net.count == count
      then (
        (direct_connect_handle net (direct_param net)).0 ∷ [],
        (direct_connect_handle net (direct_param net)).1,
      )
      else if is_connected net.state
      then ([], (snsd_disconnect worker ts (direct_param net)).0)
      else ([], [])

  abbrev collect : List NetInfo × List Added → List NetInfo × List Added → List NetInfo × List Added
  collect (nets, added) (nets', added') = (nets ++ nets', added ++ added')

  -- `direct_port_handle`, on the list that `snsd_cfg_net_info` has brought up to date.
  unfoldable pub direct_port_handle : ℕ → List NetInfo → List NetInfo × List Added
  unfolding direct_one
  direct_port_handle count [] = ([], [])
  direct_port_handle count (net ∷ nets) =
      collect (direct_one count net) (direct_port_handle count nets)

-- A port whose connection state agrees with its link.
abbrev pub Agrees : NetInfo → Type 0
Agrees net = is_connected net.state ≡ is_linkup net.flags

-- The template of the port's protocol is there.
abbrev pub Registered : Templates → NetInfo → Type 0
Registered ts net = registered (get_elem? ts net.protocol) ≡ true

module _ (worker : ConnectParam → Status) (ts : Templates) where
  -- A port that needs nothing more at the poll `count`.
  abbrev Idle : ℕ → NetInfo → Type 0
  Idle count net = direct_one worker ts count net ≡ (net ∷ [], [])

  handle_settles :
      (net : NetInfo) (param : ConnectParam)
      → worker param ≡ success
      → registered (get_elem? ts param.protocol) ≡ true
      → Agrees (direct_connect_handle worker ts net param).0
        × ((direct_connect_handle worker ts net param).0.count ≡ net.count)
  unfolding direct_connect_handle
  handle_settles net param accepts reg = ground (
    arith,
    connect-success worker ts param accepts reg,
    disconnect-success worker ts param accepts reg,
  )

  Agrees-Idle : (count : ℕ) (net : NetInfo) → Agrees net → net.count ≡ count → Idle count net
  unfolding direct_one direct_connect_handle
  Agrees-Idle count net agrees same = ground arith

  one_settles :
      ((p : ConnectParam) → worker p ≡ success)
      → (count : ℕ) (net : NetInfo) → Registered ts net
      → All (Idle count) (direct_one worker ts count net).0
  unfolding direct_one direct_param
  one_settles accepts count net reg =
      let h = handle_settles net (direct_param net) (accepts (direct_param net)) reg in
      if_cases (λ (r : List NetInfo × List Added). All (Idle count) r.0) (net.count == count)
        (λ same. (Agrees-Idle count _ h.0 (ground arith), tt)) λ _. ground arith

  port_handle_settles :
      ((p : ConnectParam) → worker p ≡ success)
      → (count : ℕ) (nets : List NetInfo) → All (Registered ts) nets
      → All (Idle count) (direct_port_handle worker ts count nets).0
  unfolding direct_port_handle
  port_handle_settles accepts count [] h = tt
  port_handle_settles accepts count (net ∷ nets) h =
      All-append (Idle count) (direct_one worker ts count net).0
        (direct_port_handle worker ts count nets).0 (one_settles accepts count net h.0)
        (port_handle_settles accepts count nets h.1)

  All-Idle :
      (count : ℕ) (nets : List NetInfo)
      → All (Idle count) nets
      → direct_port_handle worker ts count nets ≡ (nets, [])
  unfolding direct_port_handle
  All-Idle count [] h = refl
  All-Idle count (net ∷ nets) h = rw (h.0, All-Idle count nets h.1)

-- Where the worker accepts the tasks and the protocols are registered, one poll of the direct ports
-- settles them: the same poll once more leaves every port as it is and adds no task.
pub direct_port_handle-settles :
    (worker : ConnectParam → Status) (ts : Templates)
    → ((p : ConnectParam) → worker p ≡ success)
    → (count : ℕ) (nets : List NetInfo) → All (Registered ts) nets
    → direct_port_handle worker ts count (direct_port_handle worker ts count nets).0
      ≡ ((direct_port_handle worker ts count nets).0, [])
direct_port_handle-settles worker ts accepts count nets h =
    All-Idle worker ts count _ (port_handle_settles worker ts accepts count nets h)
