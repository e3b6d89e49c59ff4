-- ===== src/Discovery/Poll.antt =====
-- A poll of the kernel's interfaces, src/snsd_mgt.c: the list of ports is brought up to date.
use nvme_snsd.Base.{
  ℕ, suc, ◌+◌, Bool, true, false, ◌&&◌, ◌==◌, if◌then◌else◌, List, [], ◌∷◌, ◌++◌, length, get_elem?,
  set, remove_at, Option, none, some, ◌>>=◌, ℤ, pos, u32, Status, success, failure, eagain,
}
use nvme_snsd.Net.{mem_eq, af_inet}
use nvme_snsd.Config.Text.{str_eq}
use nvme_snsd.Discovery.Slaves.{BondingInfo, seperate_from, snsd_check_get_slave}
use nvme_snsd.Discovery.Vlan.{snsd_fill_vlan, snsd_get_phy_ifname}

-- `struct snsd_port_info`, as far as a poll fills it. The VLAN is the bits of a `short`; `is_new` and
-- `vlan_change` are bits of `states`.
pub record Port : Type 0 where
  pub name : List ℕ
  pub family : ℕ
  pub ip : List ℕ
  pub mac : List ℕ
  pub protocol : ℤ
  pub vlan : ℕ
  pub flags : ℕ
  pub count : ℕ
  pub is_new : Bool
  pub vlan_change : Bool
  pub phy_ifindex : ℕ
  pub phy_name : List ℕ
  pub bonding : BondingInfo

-- `struct ifreq` of the kernel's list of interfaces.
pub record IfReq : Type 0 where
  pub family : ℕ
  pub ifr_name : List ℕ
  pub sin_addr : List ℕ

-- What the kernel tells in a poll: its interfaces, what `ioctl` gives for a name, and its files, whose
-- text is none where the file is empty. `any_protocol` is `snsd_get_any_protocol`.
pub record Kernel : Type 0 where
  pub interfaces : List IfReq
  pub hwaddr : List ℕ → Option (List ℕ)
  pub flags_of : List ℕ → Option ℕ
  pub ifindex_of : List ℕ → Option ℕ
  pub slaves_of : List ℕ → Option (Option (List ℕ))
  pub bonding_exists : Bool
  pub bonding_masters : Option (Option (List ℕ))
  pub vlan_config : Option (Option (List ℕ))
  pub any_protocol : ℤ

-- SNSD_INVALID_VLAN, -1.
abbrev pub invalid_vlan : ℕ
invalid_vlan = 65535

-- `struct snsd_bonding_group`, as the names that it points to; MAX_PHY_PORT is 64.
abbrev pub snsd_get_bonding_info : Option (Option (List ℕ)) → Option (List (List ℕ))
snsd_get_bonding_info none = none
snsd_get_bonding_info (some none) = some []
snsd_get_bonding_info (some (some text)) = some (seperate_from 64 [] text)

-- `snsd_is_bonding`.
unfoldable pub snsd_is_bonding : List (List ℕ) → List ℕ → Bool
snsd_is_bonding [] phy_ifname = false
snsd_is_bonding (name ∷ names) phy_ifname =
    let rest = snsd_is_bonding names phy_ifname in if str_eq name phy_ifname then true else rest

-- `snsd_get_new`, with what `snsd_try_find_old` sets in a new port.
abbrev pub snsd_get_new : ℕ → IfReq → Port
snsd_get_new count ifr = record {
  name = ifr.ifr_name;
  family = ifr.family;
  ip = ifr.sin_addr;
  mac = [];
  protocol = pos 0;
  vlan = invalid_vlan;
  flags = 0;
  count = u32 (count + 4294967295);
  is_new = true;
  vlan_change = false;
  phy_ifindex = 0;
  phy_name = [];
  bonding = record {
    bonding_valid = false;
    bonding_change = false;
    slaves_count = pos 0;
    bonding_slaves = none;
    slave = [];
  };
}

abbrev pub is_same : List ℕ → List ℕ → Port → Bool
is_same name ip p = str_eq p.name name && mem_eq 4 p.ip ip

unfoldable pub find_port : List ℕ → List ℕ → List Port → ℕ → Option ℕ
find_port name ip [] i = none
find_port name ip (p ∷ ps) i =
    let rest = find_port name ip ps (suc i) in if is_same name ip p then some i else rest

abbrev pub no_longer_new : Option Port → Option Port
no_longer_new none = none
no_longer_new (some p) = some (record p { is_new = false })

abbrev pub put_port : List Port → ℕ → Option Port → List Port
put_port ports i none = ports
put_port ports i (some p) = set ports i p

abbrev pub old_or_new : ℕ → IfReq → List Port → Option ℕ → List Port × ℕ
old_or_new count ifr ports none = (ports ++ snsd_get_new count ifr ∷ [], length ports)
old_or_new count ifr ports (some i) = (put_port ports i (no_longer_new (get_elem? ports i)), i)

-- `snsd_try_find_old`, where there is memory: the list, and the place of the port in it.
unfoldable pub snsd_try_find_old : ℕ → IfReq → List Port → List Port × ℕ
unfolding find_port mem_eq
snsd_try_find_old count ifr ports =
    old_or_new count ifr ports (find_port ifr.ifr_name ifr.sin_addr ports 0)

module _ (k : Kernel) where
  abbrev pub with_mac : Port → Option (List ℕ) → Port × Status
  with_mac p none = (p, failure eagain)
  with_mac p (some mac) = (record p { mac = mac }, success)

  abbrev pub with_flags : Option ℕ → Port × Status → Port × Status
  with_flags flags (p, failure e) = (p, failure e)
  with_flags none (p, success) = (p, failure eagain)
  with_flags (some flags) (p, success) = (record p { flags = flags }, success)

  -- `snsd_get_mac_and_flags`.
  abbrev pub snsd_get_mac_and_flags : Port → Port × Status
  snsd_get_mac_and_flags p = with_flags (k.flags_of p.name) (with_mac p (k.hwaddr p.name))

  -- The end of `snsd_get_mix_info`, with the interface that is asked for its index.
  abbrev pub with_ifindex : Port → Option ℕ → Port × Status
  with_ifindex p none = (p, failure eagain)
  with_ifindex p (some ifindex) = (record p { phy_ifindex = ifindex }, success)

  abbrev pub with_vlan : ℕ → Port → Port
  with_vlan vlan p =
      if p.vlan == vlan
      then record p { vlan_change = false }
      else if p.vlan == invalid_vlan
      then record p { vlan = vlan }
      else record p { vlan = vlan; vlan_change = true }

  abbrev pub fill_index : Port → ℕ → List ℕ → Port × Status
  fill_index p vlan ifr_name = with_ifindex (with_vlan vlan p) (k.ifindex_of ifr_name)

  -- After `snsd_check_get_slave`; none is a fault.
  abbrev pub after_slaves :
      Port → ℕ → List ℕ → Option (BondingInfo × Status) → Option (Port × Status)
  after_slaves p vlan ifr_name none = none
  after_slaves p vlan ifr_name (some (info, failure e)) =
      some (record p { bonding = info }, failure e)
  after_slaves p vlan ifr_name (some (info, success)) =
      some (fill_index (record p { bonding = info; phy_name = ifr_name }) vlan ifr_name)

  abbrev pub with_device : List (List ℕ) → Port → ℕ → Option (List ℕ) → Option (Port × Status)
  with_device group p vlan none = some (p, failure eagain)
  with_device group p vlan (some ifr_name) = after_slaves p vlan ifr_name (
      snsd_check_get_slave k.ifindex_of (snsd_is_bonding group ifr_name) (k.slaves_of ifr_name)
        p.bonding)

  -- The VLAN, and the place behind it.
  abbrev pub mix_from : List (List ℕ) → Port → Option (ℕ × List ℕ) → Option (Port × Status)
  mix_from group p none = some (fill_index p invalid_vlan p.name)
  mix_from group p (some (vlan, place)) =
      if vlan == invalid_vlan
      then some (fill_index p invalid_vlan p.name)
      else with_device group p vlan (snsd_get_phy_ifname place)

  -- `snsd_get_mix_info`.
  abbrev pub snsd_get_mix_info : List (List ℕ) → List ℕ → Port → Option (Port × Status)
  snsd_get_mix_info group table p = mix_from group p (snsd_fill_vlan p.name table)

  abbrev pub mix_if : List (List ℕ) → List ℕ → Port × Status → Option (Port × Status)
  mix_if group table (p, failure e) = some (p, failure e)
  mix_if group table (p, success) = snsd_get_mix_info group table p

  unfoldable pub get_infos : List (List ℕ) → List ℕ → Port → Option (Port × Status)
  unfolding snsd_is_bonding
  get_infos group table p = mix_if group table (snsd_get_mac_and_flags p)

  -- The end of a round: a port without a VLAN goes if it is new.
  abbrev pub settle_port : ℕ → List Port → ℕ → Port → List Port
  settle_port count ports i p =
      if p.vlan == invalid_vlan
      then (if p.is_new then remove_at ports i else set ports i p)
      else set ports i (record p { protocol = k.any_protocol; count = count })

  abbrev pub after_infos :
      ℕ
      → List Port
      → ℕ
      → (List Port → Option (List Port × Status))
      → Option (Port × Status)
      → Option (List Port × Status)
  after_infos count ports i next none = none
  after_infos count ports i next (some (p, failure e)) = some (set ports i p, failure e)
  after_infos count ports i next (some (p, success)) = next (settle_port count ports i p)

  abbrev pub at_port :
      List (List ℕ)
      → List ℕ
      → ℕ
      → (List Port → Option (List Port × Status))
      → List Port × ℕ
      → Option (List Port × Status)
  at_port group table count next (ports, i) =
      get_elem? ports i >>= λ p. after_infos count ports i next (get_infos group table p)

  -- The loop of `snsd_get_net_info` over the interfaces, with the status so far; none is a fault.
  unfoldable pub poll_all :
      List (List ℕ) → List ℕ → ℕ → List IfReq → Status → List Port → Option (List Port × Status)
  unfolding get_infos
  poll_all group table count [] ret ports = some (ports, ret)
  poll_all group table count (ifr ∷ ifrs) ret ports =
      let same = poll_all group table count ifrs ret ports in
      if ifr.family == af_inet
      then at_port group table count (poll_all group table count ifrs success)
          (snsd_try_find_old count ifr ports)
      else same

  abbrev pub with_table :
      ℕ
      → Status
      → List Port
      → List (List ℕ)
      → Option (Option (List ℕ))
      → Option (List Port × Status)
  with_table count ret ports group none = some (ports, failure eagain)
  with_table count ret ports group (some none) = some (ports, failure eagain)
  with_table count ret ports group (some (some table)) =
      poll_all group table count k.interfaces ret ports

  abbrev pub with_group :
      ℕ → Status → List Port → Option (List (List ℕ)) → Option (List Port × Status)
  with_group count ret ports none = some (ports, failure eagain)
  with_group count ret ports (some group) = with_table count ret ports group k.vlan_config

  -- `snsd_get_net_info`. `ret` is the status that stands in its variable where no interface has an
  -- address and there is no bonding; the variable is not set then.
  unfoldable pub snsd_get_net_info : ℕ → Status → List Port → Option (List Port × Status)
  unfolding poll_all seperate_from
  snsd_get_net_info count ret ports =
      if k.bonding_exists
      then with_group count success ports (snsd_get_bonding_info k.bonding_masters)
      else with_group count ret ports (some [])
