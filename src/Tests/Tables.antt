-- ===== src/Tests/Tables.antt =====
-- Runs of src/snsd_mgt.c: the table of VLANs, a poll of the interfaces, and the check of a device.
use nvme_snsd.Base.{
  ℕ, ◌==◌, ltb, take, length, if◌then◌else◌, c_string, ◌≡◌, ◌↔◌, refl, true, false, ◌&&◌, List, [],
  ◌∷◌, ◌++◌, Option, none, some, arith, pos, u16, Status, success, failure, eagain,
}
use nvme_snsd.Config.Text.{str_eq}
use nvme_snsd.Config.Options.{codes, digits_from}
use nvme_snsd.Discovery.Slaves.{BondingInfo, snsd_check_get_slave}
use nvme_snsd.Discovery.Vlan.{find_str, snsd_fill_vlan, snsd_get_phy_ifname}
use nvme_snsd.Discovery.Row.{IsName, row, behind_vlan, fill_vlan-row}
use nvme_snsd.Discovery.Poll.{Port, IfReq, Kernel, snsd_try_find_old, snsd_get_net_info}
use nvme_snsd.Discovery.Files.{File, snsd_get_file_info, snsd_all_net_info}
use nvme_snsd.Discovery.Read.{get_file_info-read, all_net_info-all}
use nvme_snsd.Discovery.Kept.{Outcome, get_net_info-Polled}
use nvme_snsd.Discovery.Device.{is_zero, Speaks, snsd_protocol_ib, protocol_ib_iff}

abbrev first_row : List ℕ
first_row = row (codes "eth0.10") (codes "        ") (codes "10") (codes "eth0") []

-- The table: its two headings, a VLAN whose name goes on, and the row.
abbrev table : List ℕ
table =
    codes "VLAN Dev name    | VLAN ID\nName-Type: VLAN_NAME_TYPE_RAW_PLUS_VID_NO_PAD\n" ++ first_row

eth0_10-IsName : IsName (codes "eth0.10")
eth0_10-IsName = record { plain = ground arith; short = omega arith }

first_place : find_str (codes "eth0.10") table ≡ some first_row
unfolding find_str
first_place = refl

fill_vlan-row_example :
    (snsd_fill_vlan (codes "eth0.10") table
      ≡ some (u16 (digits_from 0 (codes "10")), behind_vlan (codes "eth0") []))
    × (snsd_get_phy_ifname (behind_vlan (codes "eth0") []) ≡ some (codes "eth0"))
fill_vlan-row_example =
    fill_vlan-row (codes "eth0.10") (codes "        ") (codes "0") (codes "th0") [] b'1' b'V'
      (codes "LAN Dev name    | VLAN ID\nName-Type: VLAN_NAME_TYPE_RAW_PLUS_VID_NO_PAD\n"
        ++ first_row)
      b'e' eth0_10-IsName refl (omega arith) (ground arith) (omega arith) (ground arith)
      (omega arith) first_place

-- A name that goes on is passed over.
longer_name :
    snsd_fill_vlan (codes "eth0.1") (
      row
        (codes "eth0.10")
        (codes " ")
        (codes "10")
        (codes "eth0")
        (row (codes "eth0.1") (codes " ") (codes "1") (codes "eth0") []))
    ≡ some (1, behind_vlan (codes "eth0") [])
unfolding snsd_fill_vlan
longer_name = refl

-- A name that ends in the one that is sought is taken for it.
longer_prefix :
    snsd_fill_vlan (codes "eth0.1") (
      row
        (codes "veth0.1")
        (codes " ")
        (codes "7")
        (codes "veth0")
        (row (codes "eth0.1") (codes " ") (codes "1") (codes "eth0") []))
    ≡ some (
      7,
      behind_vlan (codes "veth0") (row (codes "eth0.1") (codes " ") (codes "1") (codes "eth0") []),
    )
unfolding snsd_fill_vlan
longer_prefix = refl

abbrev request : List ℕ → IfReq
request name = record { family = 2; ifr_name = name; sin_addr = 192 ∷ 168 ∷ 1 ∷ 1 ∷ [] }

abbrev kernel : Kernel
kernel = record {
  interfaces = request (codes "lo") ∷ request (codes "eth0.10") ∷ [];
  hwaddr = λ name. some (0 ∷ 1 ∷ 2 ∷ 3 ∷ 4 ∷ 5 ∷ []);
  flags_of = λ name. some 64;
  ifindex_of = λ name. some 3;
  slaves_of = λ name. none;
  bonding_exists = false;
  bonding_masters = none;
  vlan_config = some (some table);
  any_protocol = pos 1;
}

get_net_info-Polled_example : Outcome kernel 5 (snsd_get_net_info kernel 5 success [])
get_net_info-Polled_example = get_net_info-Polled kernel 5 (omega arith) success [] tt tt

all_net_info-all_example :
    snsd_all_net_info 1 true (λ i n. some (take n kernel.interfaces)) kernel 5 success []
    ≡ snsd_get_net_info kernel 5 success []
all_net_info-all_example = all_net_info-all 0 kernel.interfaces kernel 5 success [] (omega arith)

-- A file that grows by a byte after its length has been taken.
abbrev file : File
file = record {
  first = some (codes "eth1");
  second = some (codes "eth12");
  error = λ i. false;
  second_error = false;
  memory = true;
}

get_file_info-read_example :
    snsd_get_file_info file
    ≡ some (
        if length (codes "eth1") == 0
        then some none
        else if ltb (length (codes "eth12")) (length (codes "eth1"))
        then none
        else some (some (c_string (take (length (codes "eth1")) (codes "eth12")))))
get_file_info-read_example =
    get_file_info-read file (codes "eth1") (codes "eth12") refl refl (λ j. refl) refl refl
      (omega arith)

abbrev names_of : Option (List Port × Status) → List (List ℕ × ℕ)
names_of none = []
names_of (some ([], s)) = []
names_of (some (p ∷ ps, s)) = (p.name, p.vlan) ∷ []

-- The interface without a VLAN has gone.
polled_run : names_of (snsd_get_net_info kernel 5 success []) ≡ (codes "eth0.10", 10) ∷ []
unfolding snsd_get_net_info snsd_fill_vlan str_eq snsd_try_find_old snsd_get_phy_ifname
    snsd_check_get_slave
polled_run = refl

-- No interface has an address, and there is no bonding: the result is what stood in the variable.
unset_result :
    snsd_get_net_info (record kernel { interfaces = [] }) 5 (failure eagain) []
    ≡ some ([], failure eagain)
unfolding snsd_get_net_info
unset_result = refl

abbrev no_bonding : BondingInfo
no_bonding = record {
  bonding_valid = false;
  bonding_change = false;
  slaves_count = pos 0;
  bonding_slaves = none;
  slave = [];
}

abbrev nets : List ℕ → Option (List (List ℕ))
nets device = some (codes "." ∷ codes ".." ∷ codes "eth0" ∷ [])

protocol_ib_iff_example :
    (snsd_protocol_ib true no_bonding (codes "eth0") (some (codes "mlx5_0" ∷ [])) nets ≡ true) ↔ (
      ((no_bonding.bonding_valid && is_zero no_bonding.slaves_count) ≡ false)
      × Speaks no_bonding (codes "eth0") (some (codes "mlx5_0" ∷ [])) nets)
protocol_ib_iff_example =
    protocol_ib_iff no_bonding (codes "eth0") (some (codes "mlx5_0" ∷ [])) nets

ib_run : snsd_protocol_ib true no_bonding (codes "eth0") (some (codes "mlx5_0" ∷ [])) nets ≡ true
unfolding snsd_protocol_ib str_eq
ib_run = refl
