-- ===== src/Main.antt =====
-- src/snsd_main.c: the order in which the parts are started and stopped, and the loop over the ports.
pub mod Started
pub mod Rounds
use nvme_snsd.Base.{
  ℕ, ◌+◌, ◌≡◌, Bool, true, false, ◌||◌, ltb, ◌==◌, if◌then◌else◌, List, [], ◌∷◌, ◌++◌, Option, none,
  some, Status, success, failure, einval, u32,
}
use nvme_snsd.Net.{ConnectParam}
use nvme_snsd.Connect.{Added, Templates}
use nvme_snsd.Direct.{NetInfo, direct_port_handle}
use nvme_snsd.Discovery.Slaves.{SlaveInfo}
use nvme_snsd.Frame.Bonding.{Link}
use nvme_snsd.Switch.Slaves.{Fds}
use nvme_snsd.Switch.Port.{SwitchPort}
use nvme_snsd.Switch.Pass.{Pass, switch_port_handle}

-- The parts that `main` starts and stops.
pub data Part : Type 0 where
  log cfg peon server : Part

-- What `main` does: `init_ports` is `switch_port_init`, `handle_ports` is `port_handle`, and `command` is
-- `special_process`.
pub data Act : Type 0 where
  start stop : Part → Act
  init_ports handle_ports command : Act

abbrev pub with_server : Status → List Act × Status
with_server (failure e) = (stop peon ∷ stop cfg ∷ stop log ∷ [], failure e)
with_server success =
    (start server ∷ handle_ports ∷ stop server ∷ stop peon ∷ stop cfg ∷ stop log ∷ [], success)

abbrev pub acts_before : List Act → List Act × Status → List Act × Status
acts_before acts (more, s) = (acts ++ more, s)

abbrev pub with_peon : Status → Status → List Act × Status
with_peon server_run (failure e) = (stop cfg ∷ [], failure e)
with_peon server_run success = acts_before (start peon ∷ init_ports ∷ []) (with_server server_run)

abbrev pub with_cfg : Status → Status → Status → List Act × Status
with_cfg peon_init server_run (failure e) = ([], failure e)
with_cfg peon_init server_run success =
    acts_before (start cfg ∷ []) (with_peon server_run peon_init)

-- `main`, on the number of its arguments and on what snsd_cfg_init, peon_init and snsd_server_run return.
unfoldable pub snsd_main : ℕ → Status → Status → Status → List Act × Status
snsd_main argc cfg_init peon_init server_run =
    if ltb 2 argc
    then ([], failure einval)
    else if argc == 2
    then (command ∷ [], failure einval)
    else acts_before (start log ∷ []) (with_cfg peon_init server_run cfg_init)

-- What a round of the loop meets: what `snsd_cfg_net_info` makes of the two lists of ports, where none is a
-- failure, and the answers to the handlers.
pub record Round : Type 0 where
  pub sw_info : ℕ → List SwitchPort → Option (List SwitchPort)
  pub dc_info : ℕ → List NetInfo → Option (List NetInfo)
  pub worker : ConnectParam → Status
  pub send : SwitchPort → Status
  pub link : SlaveInfo → Link
  pub send_slave : SlaveInfo → Status
  pub sock : ℕ → Option ℕ
  pub joined : ℕ → Status
  pub now : ℕ

-- The variables of `port_handle`, with the table of sockets, the static `count` of `switch_port_handle`,
-- and the tasks that have been added.
pub record Ports : Type 0 where
  pub switch : List SwitchPort
  pub fds : Fds
  pub count : ℕ
  pub direct : List NetInfo
  pub poll_count : ℕ
  pub tasks : List Added

abbrev pub after_switch : Ports → Pass × ℕ → Ports
after_switch s (r, count) = record s {
  switch = r.ports;
  fds = r.fds;
  count = count;
  tasks = s.tasks ++ r.added;
}

abbrev pub after_direct : Ports → List NetInfo × List Added → Ports
after_direct s (nets, added) = record s { direct = nets; tasks = s.tasks ++ added }

module _ (ts : Templates) (r : Round) where
  -- `switch_port_handle` with `snsd_cfg_net_info` before it.
  unfoldable pub switch_pass : Option (List SwitchPort) → Ports → Ports
  switch_pass none s = s
  switch_pass (some ports) s = after_switch s (
      switch_port_handle r.worker ts r.send r.link r.send_slave r.sock r.joined r.now s.count
        s.poll_count ports s.fds)

  -- `direct_port_handle` likewise.
  unfoldable pub direct_pass : Option (List NetInfo) → Ports → Ports
  direct_pass none s = s
  direct_pass (some nets) s = after_direct s (direct_port_handle r.worker ts s.poll_count nets)

  abbrev pub next_poll : Ports → Ports
  next_poll s = record s { poll_count = u32 (s.poll_count + 1) }

  abbrev pub both_passes : Ports → Ports
  both_passes s =
      let s1 = switch_pass (r.sw_info s.poll_count s.switch) s in
      next_poll (direct_pass (r.dc_info s1.poll_count s1.direct) s1)

-- `snsd_help_run`.
abbrev pub snsd_help_run : Bool
snsd_help_run = false

-- The loop of `port_handle` through these rounds: the variables after them, and whether it has ended.
unfoldable pub port_handle : Templates → List Round → Ports → Ports × Bool
unfolding switch_pass direct_pass
port_handle ts [] s = (s, false)
port_handle ts (r ∷ rs) s =
    let s' = both_passes ts r s in
    let rest = port_handle ts rs s' in if snsd_help_run then (s', true) else rest

-- The variables at the beginning, with `SWITCH_POLL_INTEVAL`.
abbrev pub first_poll : Fds → Ports
first_poll fds = record {
  switch = [];
  fds = fds;
  count = 0;
  direct = [];
  poll_count = 100;
  tasks = [];
}
