-- ===== src/Switch/Pass.antt =====
-- The pass over all the switched ports, `switch_port_handle` of src/snsd_switch.c.
use nvme_snsd.Base.{
  ℕ, Bool, false, ◌==◌, if◌then◌else◌, List, [], ◌∷◌, ◌++◌, Option, Status, success, failure,
}
use nvme_snsd.Net.{ConnectParam}
use nvme_snsd.Connect.{Added, Templates, snsd_disconnect_by_host_traddr}
use nvme_snsd.Discovery.Slaves.{SlaveInfo}
use nvme_snsd.Frame.Bonding.{Link}
use nvme_snsd.Switch.Slaves.{Fds}
use nvme_snsd.Switch.Poll.{LldpRunInfo, switch_need_check_lldp, switch_port_handle_disconnect}
use nvme_snsd.Switch.Port.{SwitchPort, Handled, switch_port_exist_handle, switch_port_delete}

-- The ports, the table, and the tasks that are added.
pub record Pass : Type 0 where
  pub ports : List SwitchPort
  pub fds : Fds
  pub added : List Added

-- A port that stays, before the ports after it.
abbrev pub stays : SwitchPort → List Added → Pass → Pass
stays p tasks r = record r { ports = p ∷ r.ports; added = tasks ++ r.added }

abbrev pub goes : List Added → Pass → Pass
goes tasks r = record r { added = tasks ++ r.added }

module _ (worker : ConnectParam → Status) (ts : Templates) (send : SwitchPort → Status)
    (link : SlaveInfo → Link) (send_slave : SlaveInfo → Status) (sock : ℕ → Option ℕ)
    (added : ℕ → Status) (now : ℕ) where
  -- A port that was found in this poll.
  abbrev pub looked_at : Bool → SwitchPort → Fds → Handled
  looked_at need_check_lldp p fds =
      if need_check_lldp
      then switch_port_exist_handle send link send_slave now sock added p fds
      else record { port = p; fds = fds; frame = false; query = false }

  abbrev pub after_disconnect : SwitchPort → LldpRunInfo × List Added → Pass → Pass
  after_disconnect p (lldp, tasks) r = stays (record p { lldp = lldp }) tasks r

  abbrev pub exists : Handled → (Fds → Pass) → Pass
  exists h next =
      after_disconnect h.port
        (switch_port_handle_disconnect worker ts h.port.family h.port.ip h.port.port_flags
          h.port.lldp)
        (next h.fds)

  -- A port that was not: it goes if its disconnection is under way.
  abbrev pub is_gone : SwitchPort → Fds → List Added × Status → (Fds → Pass) → Pass
  is_gone p fds (tasks, success) next = goes tasks (next (switch_port_delete now p fds))
  is_gone p fds (tasks, failure e) next = stays p tasks (next fds)

  -- The loop of `switch_port_handle`.
  unfoldable pub handle_ports : Bool → ℕ → List SwitchPort → Fds → Pass
  unfolding switch_port_exist_handle switch_port_handle_disconnect switch_port_delete
      snsd_disconnect_by_host_traddr
  handle_ports need_check_lldp poll_count [] fds = record { ports = []; fds = fds; added = [] }
  handle_ports need_check_lldp poll_count (p ∷ ps) fds =
      let next = handle_ports need_check_lldp poll_count ps in
      if p.count == poll_count
      then exists (looked_at need_check_lldp p fds) next
      else is_gone p fds (snsd_disconnect_by_host_traddr worker ts p.family p.ip) next

  -- `switch_port_handle` on the ports that `snsd_cfg_net_info` has brought up to date, with the static
  -- `count`.
  unfoldable pub switch_port_handle : ℕ → ℕ → List SwitchPort → Fds → Pass × ℕ
  unfolding handle_ports switch_need_check_lldp
  switch_port_handle count poll_count ports fds =
      let need_check_lldp = switch_need_check_lldp count poll_count in
      (
        handle_ports need_check_lldp poll_count ports fds,
        if need_check_lldp then poll_count else count,
      )
