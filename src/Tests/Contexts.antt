-- ===== src/Tests/Contexts.antt =====
-- Runs of src/snsd_conn_nvme.c: options, profiles and disconnections.
use nvme_snsd.Base.{
  ℕ, ◌≡◌, refl, true, false, List, [], ◌∷◌, Option, none, some, All, arith, ℤ, pos, negsuc, ◌==◌,
  if◌then◌else◌,
}
use nvme_snsd.Net.{sw}
use nvme_snsd.Config.Text.{str_eq, starts_with}
use nvme_snsd.Config.Options.{codes, text, number}
use nvme_snsd.Config.Items.{CfgInfos, Config}
use nvme_snsd.Config.Conflict.{snsd_find_sw_info}
use nvme_snsd.Driver.{NvmeCtx, Device}
use nvme_snsd.Driver.Options.{snsd_nvme_build_options}
use nvme_snsd.Driver.Address.{
  Address, profile_of, snsd_nvme_ctrl_profile, snsd_nvme_ctrl_parse_address,
}
use nvme_snsd.Driver.Profile.{Known, address_line, line, profile-read}
use nvme_snsd.Driver.Context.{Meeting, snsd_nvme_disconnect, keep_alive, remove}
use nvme_snsd.Driver.Disconnect.{Justified, disconnect-Justified}

abbrev known_target : NvmeCtx
known_target = record {
  transport = codes "rdma";
  trsvcid = codes "4420";
  traddr = codes "192.168.1.2";
  host_traddr = codes "192.168.1.1";
  subsysnqn = codes "nqn.array";
  protocol = 1;
  mode = sw;
  dname = [];
}

abbrev unset : ℤ
unset = negsuc 0

-- A switched network, with 4 queues and the other options by default.
abbrev network : CfgInfos
network = record {
  mode = sw;
  values =
      text (codes "invalid")
      ∷ text (codes "invalid")
      ∷ text (codes "invalid")
      ∷ text (codes "192.168.1.1")
      ∷ text (codes "invalid")
      ∷ text (codes "invalid")
      ∷ number (pos 4)
      ∷ number unset
      ∷ number unset
      ∷ number unset
      ∷ number unset
      ∷ number unset
      ∷ number unset
      ∷ number unset
      ∷ number unset
      ∷ number unset
      ∷ number unset
      ∷ number (pos 1)
      ∷ number (pos 0)
      ∷ [];
}

abbrev config : Config
config = record {
  cfg = [];
  base_cfg =
      number (pos 0)
      ∷ text (codes "invalid")
      ∷ text (codes "invalid")
      ∷ text (codes "invalid")
      ∷ [];
  snsd_hostnqn = codes "nqn.host";
  sw_info_list = network ∷ [];
  dc_info_list = [];
  anyflag = false;
  any_protocol = pos 0;
}

-- A host's address that is not configured: the network is NULL, and its fields are read.
unconfigured :
    snsd_nvme_build_options config (record known_target { host_traddr = codes "192.168.1.9" })
    ≡ none
unfolding snsd_nvme_build_options snsd_find_sw_info str_eq
unconfigured = refl

abbrev known_addresses : Address
known_addresses = record {
  traddr = codes "192.168.1.2";
  host_traddr = codes "192.168.1.1";
  trsvcid = codes "4420";
}

known_addresses-Known : Known known_addresses
known_addresses-Known = record {
  traddr = ground arith;
  trsvcid = ground arith;
  host_traddr = ground arith;
  traddr_short = omega arith;
  trsvcid_short = omega arith;
  host_traddr_short = omega arith;
}

abbrev files : List ℕ → Option (List ℕ)
files attr =
    if str_eq attr (codes "subsysnqn")
    then some (line (codes "nqn.array"))
    else if str_eq attr (codes "transport")
    then some (line (codes "rdma"))
    else if str_eq attr (codes "address")
    then some (line (address_line known_addresses))
    else none

nqn_file : files (codes "subsysnqn") ≡ some (line (codes "nqn.array"))
unfolding str_eq
nqn_file = refl

transport_file : files (codes "transport") ≡ some (line (codes "rdma"))
unfolding str_eq
transport_file = refl

address_file : files (codes "address") ≡ some (line (address_line known_addresses))
unfolding str_eq
address_file = refl

profile-read_example :
    snsd_nvme_ctrl_profile files
    ≡ some (some (profile_of (codes "nqn.array") (codes "rdma") known_addresses))
profile-read_example =
    profile-read files (codes "nqn.array") (codes "rdma") known_addresses nqn_file transport_file
      address_file (ground arith) (omega arith) (ground arith) (omega arith) known_addresses-Known

-- A service of 8 bytes or more is written behind its array.
long_service : snsd_nvme_ctrl_parse_address (codes "trsvcid=12345678") ≡ none
unfolding snsd_nvme_ctrl_parse_address
long_service = refl

-- Addresses that are their own bytes, and a number that is read from its digits.
abbrev as_bytes : ℕ → List ℕ → Option (List ℕ)
as_bytes family s = some s

abbrev number_of_text : List ℕ → ℕ × List ℕ
number_of_text s = if str_eq s (codes "4420") then (4420, []) else (0, s)

abbrev of_profile : Option NvmeCtx → Device
of_profile profile = record {
  dname = codes "nvme0";
  profile = profile;
  state = some (codes "live");
}

abbrev meeting : Meeting
meeting = record {
  before = some (of_profile (some known_target) ∷ []);
  afterwards = some (of_profile (some known_target) ∷ []);
  first_fails = false;
  results = λ i. i == 2;
}

disconnect-Justified_example :
    All (Justified true meeting known_target) (snsd_nvme_disconnect true meeting known_target)
disconnect-Justified_example = disconnect-Justified true meeting known_target

forced_run :
    snsd_nvme_disconnect true meeting known_target
    ≡ keep_alive (codes "nvme0") ∷ remove (codes "nvme0") ∷ []
unfolding snsd_nvme_disconnect str_eq starts_with
forced_run = refl

-- Three more commands, up to the one that gives an error.
unforced_run :
    snsd_nvme_disconnect false meeting known_target
    ≡ keep_alive (codes "nvme0")
      ∷ keep_alive (codes "nvme0")
      ∷ keep_alive (codes "nvme0")
      ∷ keep_alive (codes "nvme0")
      ∷ []
unfolding snsd_nvme_disconnect str_eq starts_with
unforced_run = refl
