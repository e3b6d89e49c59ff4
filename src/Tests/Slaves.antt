-- ===== src/Tests/Slaves.antt =====
-- Runs of src/snsd_mgt.c.
use nvme_snsd.Base.{
  ℕ, ◌≡◌, refl, arith, true, false, List, [], ◌∷◌, ◌++◌, map, replicate, Option, none, some, pos,
  Holds,
}
use nvme_snsd.Config.Text.{str_eq}
use nvme_snsd.Discovery.Slaves.{BondingInfo, new_slave, snsd_seperate_slaves, snsd_check_get_slave}
use nvme_snsd.Net.{sw}
use nvme_snsd.Config.Options.{codes, text, number}
use nvme_snsd.Config.Items.{CfgInfos}
use nvme_snsd.Discovery.Ports.{NetPort, snsd_cfg_net_info}
use nvme_snsd.Discovery.Configured.{AllLeft, cfg_net_info-AllLeft}
use nvme_snsd.Discovery.Live.{Current}
use nvme_snsd.Discovery.Current.{Result, check_get_slave-Follows}

abbrev ifindex_of : List ℕ → Option ℕ
ifindex_of name = some 7

abbrev bonding : BondingInfo
bonding = record {
  bonding_valid = true;
  bonding_change = false;
  slaves_count = pos 1;
  bonding_slaves = none;
  slave = new_slave (codes "eth0") 3 ∷ [];
}

bonding-Current : Current bonding
bonding-Current = record { named = tt; bonded = λ e. cc; counted = refl }

seperate_run : snsd_seperate_slaves (codes "eth0 eth1\n") ≡ codes "eth0" ∷ codes "eth1" ∷ []
unfolding snsd_seperate_slaves
seperate_run = refl

check_get_slave-Follows_example :
    Holds
      (Result (codes "eth1\n"))
      (snsd_check_get_slave ifindex_of true (some (some (codes "eth1\n"))) bonding)
check_get_slave-Follows_example =
    check_get_slave-Follows ifindex_of true (codes "eth1\n") bonding bonding-Current

abbrev known : BondingInfo
known = record bonding { bonding_slaves = some (codes "eth0\n") }

abbrev found_port : NetPort
found_port = record {
  ip = 10 ∷ 0 ∷ 0 ∷ 2 ∷ [];
  tgtip = [];
  service_type = 0;
  protocol = pos 0;
  protol_role = 0;
  ulp_port = 0;
  count = 9;
  is_new = true;
  device = 1;
}

abbrev other_port : NetPort
other_port = record found_port { ip = 10 ∷ 0 ∷ 0 ∷ 3 ∷ [] }

abbrev network : CfgInfos
network = record {
  mode = sw;
  values =
      text []
      ∷ text []
      ∷ text (codes "invalid")
      ∷ text (codes "10.0.0.2")
      ∷ (replicate 13 (text []) ++ number (pos 1) ∷ number (pos 0) ∷ []);
}

abbrev inet_pton : List ℕ → Option (List ℕ)
inet_pton host = some (10 ∷ 0 ∷ 0 ∷ 2 ∷ [])

cfg_net_info-AllLeft_example : Holds (AllLeft inet_pton false sw (λ d. true) 9 (network ∷ [])) (
    snsd_cfg_net_info inet_pton false
      (λ d. true)
      sw
      (network ∷ [])
      9
      (some (found_port ∷ other_port ∷ [])))
cfg_net_info-AllLeft_example =
    cfg_net_info-AllLeft inet_pton false (λ d. true) sw network [] 9 (found_port ∷ other_port ∷ [])
      (omega arith)

-- Only the configured port is left.
one_left :
    map
      (λ (p : NetPort). p.ip)
      (elim (snsd_cfg_net_info inet_pton false
        (λ d. true)
        sw
        (network ∷ [])
        9
        (some (found_port ∷ other_port ∷ []))) [ none ↦ [] | some ps ↦ ps ])
    ≡ (10 ∷ 0 ∷ 0 ∷ 2 ∷ []) ∷ []
unfolding snsd_cfg_net_info str_eq
one_left = refl
