-- ===== src/Discovery/Ports.antt =====
-- Which of the ports that the kernel tells of are kept, src/snsd_mgt.c: those of the configuration whose
-- protocol the device speaks.
use nvme_snsd.Base.{
  ℕ, ◌+◌, ◌-◌, ◌%◌, Bool, true, false, not, ◌&&◌, ◌==◌, if◌then◌else◌, List, [], ◌∷◌, Option, none,
  some, get_elem?, ℤ, pos, negsuc, u32, or_bit,
}
use nvme_snsd.Net.{Mode, sw, dc, mem_eq}
use nvme_snsd.Config.Text.{str_eq}
use nvme_snsd.Config.Options.{codes, atoi}
use nvme_snsd.Config.Items.{
  CfgInfos, text_of, number_of, traddr_of, host_traddr_of, protocol_of, same_int,
}

-- `struct snsd_port_info`, as far as the configuration fills it; `is_new` is `STATE_NEW_PORT`. `device`
-- stands for what `snsd_protocol_ib` looks at.
pub record NetPort : Type 0 where
  pub ip : List ℕ
  pub tgtip : List ℕ
  pub service_type : ℕ
  pub protocol : ℤ
  pub protol_role : ℕ
  pub ulp_port : ℕ
  pub count : ℕ
  pub is_new : Bool
  pub device : ℕ

-- The low bits of an `int`, by its two's complement.
abbrev low_bits : ℕ → ℤ → ℕ
low_bits size (pos n) = n % size
low_bits size (negsuc n) = size - 1 - n % size

-- `SNSD_CLIENT` where no role is configured.
abbrev role_of : ℕ → ℕ
role_of role = if role == 0 then 2 else role

abbrev port_of : List ℕ → ℕ
port_of trsvcid = if str_eq trsvcid (codes "invalid") then 0 else low_bits 65536 (atoi trsvcid)

-- `snsd_fill_net_info`; `SNSD_SERVICE_TYPE_INFORM` is bit 7.
unfoldable pub snsd_fill_net_info : NetPort → CfgInfos → NetPort
unfolding atoi
snsd_fill_net_info p c = record p {
  service_type = or_bit p.service_type 7;
  protocol = protocol_of c;
  protol_role = role_of (low_bits 256 (number_of (get_elem? c.values 18)));
  ulp_port = port_of (text_of (get_elem? c.values 2));
}

-- Whether the port has the configured address.
abbrev pub if_same : NetPort → CfgInfos → List ℕ → NetPort × Bool
if_same p c address = if mem_eq 4 p.ip address then (snsd_fill_net_info p c, true) else (p, false)

abbrev pub is_sw : Mode → Bool
is_sw sw = true
is_sw dc = false

-- `inet_pton(AF_INET, ...)`.
module _ (inet_pton : List ℕ → Option (List ℕ)) (any : Bool) where
  -- The target's address of a direct connection.
  abbrev pub with_target : Mode → NetPort → CfgInfos → List ℕ → Option (List ℕ) → NetPort × Bool
  with_target sw p c address target = if_same p c address
  with_target dc p c address none = (p, false)
  with_target dc p c address (some tgtip) = if_same (record p { tgtip = tgtip }) c address

  abbrev pub with_host : Mode → NetPort → CfgInfos → Option (List ℕ) → NetPort × Bool
  with_host mode p c none = (p, false)
  with_host mode p c (some address) = with_target mode p c address (inet_pton (traddr_of c))

  -- `snsd_check_and_fill`.
  unfoldable pub snsd_check_and_fill : Mode → NetPort → CfgInfos → NetPort × Bool
  unfolding snsd_fill_net_info mem_eq
  snsd_check_and_fill mode p c =
      if any && is_sw mode
      then (snsd_fill_net_info p c, true)
      else with_host mode p c (inet_pton (host_traddr_of c))

  -- The search for a port among the configured networks.
  unfoldable pub find_cfg : Mode → List CfgInfos → NetPort → NetPort × Bool
  unfolding snsd_check_and_fill
  find_cfg mode [] p = (p, false)
  find_cfg mode (c ∷ cs) p =
      let r = snsd_check_and_fill mode p c in
      let rest = find_cfg mode cs r.0 in if r.1 then r else rest

  -- `snsd_dealwith_cfg`: the ports that are found, filled.
  unfoldable pub snsd_dealwith_cfg : Mode → List CfgInfos → List NetPort → List NetPort
  unfolding find_cfg
  snsd_dealwith_cfg mode cs [] = []
  snsd_dealwith_cfg mode cs (p ∷ ps) =
      let r = find_cfg mode cs p in
      let rest = snsd_dealwith_cfg mode cs ps in if r.1 then r.0 ∷ rest else rest

-- `protocol_options`: only RoCE has a check that can succeed.
unfoldable pub protocol_handle : (ℕ → Bool) → NetPort → Bool
protocol_handle ib p = if same_int p.protocol (pos 1) then ib p.device else false

-- `not config protocol, default roce`.
abbrev pub with_protocol : NetPort → NetPort
with_protocol p = if same_int p.protocol (pos 0) then record p { protocol = pos 1 } else p

-- `snsd_protocol_handle`, at the poll `count`: a new port that fails goes, an old one is left for later
-- with the count of an earlier poll. `ib` is `snsd_protocol_ib`.
abbrev pub handled : (ℕ → Bool) → NetPort → List NetPort → List NetPort
handled ib p rest =
    if protocol_handle ib p
    then p ∷ rest
    else if p.is_new
    then rest
    else record p { count = u32 (p.count + 4294967295) } ∷ rest

unfoldable pub snsd_protocol_handle : (ℕ → Bool) → ℕ → List NetPort → List NetPort
unfolding protocol_handle
snsd_protocol_handle ib count [] = []
snsd_protocol_handle ib count (p ∷ ps) =
    let rest = snsd_protocol_handle ib count ps in
    if p.count == count then handled ib (with_protocol p) rest else p ∷ rest

abbrev is_empty : List CfgInfos → Bool
is_empty [] = true
is_empty (c ∷ cs) = false

abbrev pub from_all :
    (List ℕ → Option (List ℕ))
    → Bool
    → (ℕ → Bool)
    → Mode
    → List CfgInfos
    → ℕ
    → Option (List NetPort)
    → Option (List NetPort)
from_all inet_pton any ib mode cs count none = none
from_all inet_pton any ib mode cs count (some ports) =
    some (snsd_protocol_handle ib count (snsd_dealwith_cfg inet_pton any mode cs ports))

-- `snsd_cfg_net_info`; `found` is what `snsd_all_net_info` makes of the list, and none is an error.
unfoldable pub snsd_cfg_net_info :
    (List ℕ → Option (List ℕ))
    → Bool
    → (ℕ → Bool)
    → Mode
    → List CfgInfos
    → ℕ
    → Option (List NetPort)
    → Option (List NetPort)
unfolding snsd_dealwith_cfg snsd_protocol_handle
snsd_cfg_net_info inet_pton any ib mode cs count found =
    if is_empty cs && not (any && is_sw mode)
    then none
    else from_all inet_pton any ib mode cs count found
