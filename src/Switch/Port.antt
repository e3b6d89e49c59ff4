-- ===== src/Switch/Port.antt =====
-- The handling of one port behind a switch, src/snsd_switch.c: its sockets, its LLDP frames, and the
-- query of its zone.
use nvme_snsd.Base.{
  ℕ, ◌+◌, Bool, true, false, not, if◌then◌else◌, List, Option, none, some, get_elem?, Status,
  is_success, success, failure, eagain,
}
use nvme_snsd.Net.{is_linkup}
use nvme_snsd.Discovery.Slaves.{SlaveInfo, BondingInfo}
use nvme_snsd.Frame.Bonding.{Link, lldp_send_bonding}
use nvme_snsd.Switch.FdInfo.{PortFd, switch_get_fd_info}
use nvme_snsd.Switch.FdData.{FdData, switch_get_fd_data}
use nvme_snsd.Switch.Slaves.{
  Fds, after_fd, put_at, fd_at, switch_free_bonding_fd, switch_get_bonding_fd,
}
use nvme_snsd.Switch.Poll.{LldpRunInfo, calc_expires_for_new, switch_check_lldp_send}

-- `struct snsd_net_info` as the switched ports use it: the run state of LLDP with its place in the
-- table of sockets and its socket, and the port.
pub record SwitchPort : Type 0 where
  pub lldp : LldpRunInfo
  pub index : ℕ
  pub lldp_fd : Option ℕ
  pub name_index : ℕ
  pub phy_ifindex : ℕ
  pub port_flags : ℕ
  pub vlan_change : Bool
  pub bonding : BondingInfo
  pub family : ℕ
  pub ip : List ℕ
  pub count : ℕ

-- The port, the table, and a result.
pub record GotPort : Type 0 where
  pub port : SwitchPort
  pub fds : Fds
  pub result : Status

-- What handling a port comes to: whether a frame and a query are sent.
pub record Handled : Type 0 where
  pub port : SwitchPort
  pub fds : Fds
  pub frame : Bool
  pub query : Bool

-- An entry of the table and an index that a port has got, or none.
abbrev pub phy_got : SwitchPort → Fds → Option (ℕ × ℕ) → GotPort
phy_got p fds none = record { port = p; fds = fds; result = failure eagain }
phy_got p fds (some (i, name_index)) = record {
  port = record p { index = i; lldp_fd = fd_at (get_elem? fds.table i); name_index = name_index };
  fds = fds;
  result = success;
}

abbrev pub bonding_phy_got : SwitchPort → Fds → List PortFd × Option (ℕ × ℕ) → GotPort
bonding_phy_got p fds (table, none) = record {
  port = p;
  fds = record fds { table = table };
  result = failure eagain;
}
bonding_phy_got p fds (table, some (i, name_index)) = record {
  port = record p { index = i; name_index = name_index };
  fds = record fds { table = table };
  result = success;
}

-- `switch_get_bonding_phy_fd`: an entry without a socket.
unfoldable pub switch_get_bonding_phy_fd : ℕ → SwitchPort → Fds → GotPort
unfolding switch_get_fd_info
switch_get_bonding_phy_fd now p fds =
    bonding_phy_got p fds (switch_get_fd_info p.phy_ifindex true now fds.table)

-- After `switch_get_bonding_fd`, which gives the entry of the port back where it fails.
abbrev pub bonding_done : ℕ → SwitchPort → BondingInfo × (Fds × Status) → GotPort
bonding_done now p (bonding, (fds, success)) = record {
  port = record p { bonding = bonding };
  fds = fds;
  result = success;
}
bonding_done now p (bonding, (fds, failure e)) = record {
  port = record p { bonding = bonding };
  fds = put_at p.index p.name_index now fds;
  result = failure e;
}

-- `lldp_info->valid = 1` where the sockets are there.
abbrev pub now_valid : GotPort → GotPort
now_valid g =
    if is_success g.result
    then record g { port = record g.port { lldp = record g.port.lldp { valid = true } } }
    else g

abbrev pub old_time_at : Option PortFd → ℕ
old_time_at none = 0
old_time_at (some e) = e.old_time

-- What opening a socket and adding an address come to.
module _ (sock : ℕ → Option ℕ) (added : ℕ → Status) (now : ℕ) where
  -- `switch_get_phy_fd`.
  abbrev pub phy_data : SwitchPort → Fds → FdData
  phy_data p fds =
      switch_get_fd_data (sock p.phy_ifindex) (added p.phy_ifindex) p.phy_ifindex true now fds.table

  unfoldable pub switch_get_phy_fd : SwitchPort → Fds → GotPort
  unfolding switch_get_fd_data
  switch_get_phy_fd p fds = let d = phy_data p fds in phy_got p (after_fd d fds) d.got

  abbrev pub with_bonding : GotPort → GotPort
  with_bonding g =
      if is_success g.result
      then bonding_done now g.port (switch_get_bonding_fd sock added now g.port.bonding g.fds)
      else g

  -- `switch_get_fd`.
  unfoldable pub switch_get_fd : SwitchPort → Fds → GotPort
  unfolding switch_get_phy_fd switch_get_bonding_phy_fd switch_get_bonding_fd
  switch_get_fd p fds = now_valid (
      if p.bonding.bonding_valid
      then with_bonding (switch_get_bonding_phy_fd now p fds)
      else switch_get_phy_fd p fds)

-- What sending a frame comes to.
module _ (send : SwitchPort → Status) (link : SlaveInfo → Link) (send_slave : SlaveInfo → Status)
    (now : ℕ) where
  -- `lldp_send`, or `lldp_send_bonding`.
  unfoldable pub frame_result : SwitchPort → Status
  unfolding lldp_send_bonding
  frame_result p =
      if p.bonding.bonding_valid
      then (lldp_send_bonding link send_slave p.bonding.slave).1
      else send p

  abbrev sent_from : SwitchPort → Fds → Bool → Bool × LldpRunInfo → Handled
  sent_from p fds query (frame, lldp) = record {
    port = record p { lldp = lldp };
    fds = fds;
    frame = frame;
    query = query;
  }

  abbrev pub check_send : SwitchPort → Fds → Bool → Handled
  check_send p fds query =
      sent_from p fds query (switch_check_lldp_send (frame_result p) p.port_flags now p.lldp)

  -- A port whose sockets are there: `LLDP_OLD_TIME + LLDP_WAIT_OLD_TIME` is 130 seconds.
  abbrev pub run_valid : SwitchPort → Fds → Handled
  run_valid p fds =
      if p.vlan_change
      then record {
        port = record p { lldp = record p.lldp { expires = now + 130 } };
        fds = fds;
        frame = false;
        query = false;
      }
      else check_send p fds false

  abbrev pub after_change : SwitchPort → BondingInfo × (Fds × Status) → Handled
  after_change p (bonding, (fds, failure e)) = record {
    port = record p { bonding = bonding };
    fds = fds;
    frame = false;
    query = false;
  }
  after_change p (bonding, (fds, success)) = run_valid (record p { bonding = bonding }) fds

  -- A port that has its sockets for the first time. `snsd_query_zone_for_port` sends where the link is up.
  abbrev pub start : SwitchPort → Fds → Handled
  start p fds =
      let old_time = old_time_at (get_elem? fds.table p.index) in
      let lldp' = record p.lldp {
        interval_clock = 30;
        expires = calc_expires_for_new old_time now;
      } in
      check_send (record p { lldp = lldp' }) fds (is_linkup p.port_flags)

  abbrev pub if_started : GotPort → Handled
  if_started g =
      if g.port.lldp.valid
      then start g.port g.fds
      else record { port = g.port; fds = g.fds; frame = false; query = false }

  -- `switch_port_exist_handle`.
  unfoldable pub switch_port_exist_handle :
      (ℕ → Option ℕ) → (ℕ → Status) → SwitchPort → Fds → Handled
  unfolding switch_get_fd frame_result switch_check_lldp_send calc_expires_for_new
  switch_port_exist_handle sock added p fds =
      if p.lldp.valid
      then (if p.bonding.bonding_change
          then after_change p (switch_get_bonding_fd sock added now p.bonding fds)
          else run_valid p fds)
      else if_started (switch_get_fd sock added now p fds)

-- `switch_port_delete`, on the table.
unfoldable pub switch_port_delete : ℕ → SwitchPort → Fds → Fds
unfolding switch_free_bonding_fd
switch_port_delete now p fds =
    let fds' = put_at p.index p.name_index now fds in
    if not p.lldp.valid
    then fds
    else if p.bonding.bonding_valid
    then switch_free_bonding_fd now p.bonding.slave fds'
    else fds'
