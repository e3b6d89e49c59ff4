-- ===== src/Tests/Ports.antt =====
-- Runs of src/snsd_connect.c, src/snsd_direct.c and src/snsd_switch.c.
use nvme_snsd.Base.{
  ℕ, none, some, pos, ◌≡◌, refl, true, false, List, [], ◌∷◌, Status, success, replicate,
}
use nvme_snsd.Net.{ConnectParam, is_linkup}
use nvme_snsd.Connect.{Templates, snsd_disconnect_by_host_traddr, protocols_from}
use nvme_snsd.Direct.{
  NetInfo, connect_ini, connected, direct_port_handle, direct_port_handle-settles,
}
use nvme_snsd.Switch.FdInfo.{PortFd, switch_port_init, switch_get_fd_info, switch_get_index}
use nvme_snsd.Switch.Unique.{Unique, port_init-Unique, get_fd_info-Unique}
use nvme_snsd.Switch.Index.{Taken, get_index-Taken}
use nvme_snsd.Discovery.Slaves.{SlaveInfo, BondingInfo, new_slave}
use nvme_snsd.Discovery.Live.{Current}
use nvme_snsd.Switch.Slaves.{Fds, switch_get_bonding_fd}
use nvme_snsd.Switch.Port.{SwitchPort, switch_port_exist_handle}
use nvme_snsd.Switch.Pass.{switch_port_handle}
use nvme_snsd.Switch.Kept.{AllSound, port_handle-AllSound}
use nvme_snsd.Switch.Handle.{HandledOk, exist_handle-Handled}
use nvme_snsd.Frame.Bonding.{Link}
use nvme_snsd.Switch.Poll.{switch_need_check_lldp, LldpRunInfo, switch_check_lldp_send}

abbrev pub templates : Templates
templates = false ∷ true ∷ true ∷ false ∷ []

abbrev pub accepting : ConnectParam → Status
accepting p = success

abbrev host : List ℕ
host = 10 ∷ 0 ∷ 0 ∷ 2 ∷ replicate 12 0

all_added : (snsd_disconnect_by_host_traddr accepting templates 2 host).1 ≡ success
unfolding snsd_disconnect_by_host_traddr
all_added = refl

two_protocols : protocols_from templates 0 ≡ 1 ∷ 2 ∷ []
unfolding protocols_from
two_protocols = refl

-- A port that comes up, one that has gone down, and one that is no longer configured.
abbrev coming_up : NetInfo
coming_up = record {
  protocol = 1;
  family = 2;
  tgtip = host;
  ip = host;
  flags = 64;
  count = 7;
  state = connect_ini;
}

abbrev pub nets : List NetInfo
nets =
    coming_up
    ∷ record coming_up { flags = 0; state = connected }
    ∷ record coming_up { count = 6; state = connected }
    ∷ []

direct_port_handle-settles_example :
    direct_port_handle accepting templates 7 (direct_port_handle accepting templates 7 nets).0
    ≡ ((direct_port_handle accepting templates 7 nets).0, [])
direct_port_handle-settles_example =
    direct_port_handle-settles accepting templates (λ p. refl) 7 nets (refl, (refl, (refl, tt)))

abbrev table : List PortFd
table = switch_port_init 64

get_fd_info-Unique_example : Unique (switch_get_fd_info 3 true 100 table).0
get_fd_info-Unique_example = get_fd_info-Unique 3 true 100 table (port_init-Unique 64)

get_index-Taken_example : Taken 64 0 11 (switch_get_index 11)
get_index-Taken_example = get_index-Taken 11

third_index : switch_get_index 11 ≡ (3, 15)
unfolding switch_get_index
third_index = refl

-- The count of the polls has wrapped and one poll has passed: the ports are due already.
abbrev last_count : ℕ
last_count = 4294967295

due_after_one_poll : switch_need_check_lldp last_count 0 ≡ true
unfolding switch_need_check_lldp
due_after_one_poll = refl

abbrev lldp : LldpRunInfo
lldp = record { valid = true; expires = 50; interval_clock = 30; flags = 0 }

abbrev up : ℕ
up = 64

link_up : is_linkup up ≡ true
unfolding is_linkup
link_up = refl

frame_sent : (switch_check_lldp_send success up 60 lldp).0 ≡ true
unfolding switch_check_lldp_send is_linkup
frame_sent = refl

link_down : is_linkup 0 ≡ false
unfolding is_linkup
link_down = refl

abbrev bonding : BondingInfo
bonding = record {
  bonding_valid = true;
  bonding_change = true;
  slaves_count = pos 1;
  bonding_slaves = none;
  slave = new_slave (1 ∷ []) 3 ∷ [];
}

pub bonding-Current : Current bonding
bonding-Current = record { named = tt; bonded = λ e. cc; counted = refl }

abbrev pub fds : Fds
fds = record { table = table; closed = [] }

got_success : (switch_get_bonding_fd (λ i. some 9) (λ i. success) 100 bonding fds).1.1 ≡ success
unfolding switch_get_bonding_fd switch_get_fd_info switch_port_init
got_success = refl

abbrev other_port : PortFd
other_port = record { ifindex = some 5; refs = pos 1; fd = some 8; index_map = 1; old_time = 0 }

abbrev pub bonded_port : SwitchPort
bonded_port = record {
  lldp = record { valid = false; expires = 0; interval_clock = 0; flags = 0 };
  index = 0;
  lldp_fd = none;
  name_index = 0;
  phy_ifindex = 2;
  port_flags = up;
  vlan_change = false;
  bonding = bonding;
  family = 2;
  ip = host;
  count = 100;
}

abbrev pub all_up : SlaveInfo → Link
all_up s = record { socket = true; flags = some up }

exist_handle-Handled_example : HandledOk up (
    switch_port_exist_handle
      (λ p. success)
      all_up
      (λ s. success)
      100
      (λ i. some 9)
      (λ i. success)
      bonded_port
      fds)
exist_handle-Handled_example =
    exist_handle-Handled (λ p. success) all_up (λ s. success) 100 (λ i. some 9) (λ i. success)
      bonded_port fds (bonding-Current, port_init-Unique 64)

first_frame :
    (switch_port_exist_handle
      (λ p. success)
      all_up
      (λ s. success)
      100
      (λ i. some 9)
      (λ i. success)
      bonded_port
      fds).frame
    ≡ true
unfolding switch_port_exist_handle switch_port_init is_linkup
first_frame = refl

port_handle-AllSound_example :
    AllSound
      (switch_port_handle accepting templates
        (λ p. success)
        all_up
        (λ s. success)
        (λ i. some 9)
        (λ i. success)
        100
        0
        100
        (bonded_port ∷ [])
        fds).0
port_handle-AllSound_example =
    port_handle-AllSound accepting templates (λ p. success) all_up (λ s. success) (λ i. some 9)
      (λ i. success) 100 0 100 (bonded_port ∷ []) fds (bonding-Current, tt) (port_init-Unique 64)
