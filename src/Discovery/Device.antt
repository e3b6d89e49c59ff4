-- ===== src/Discovery/Device.antt =====
-- Whether a port's device speaks RoCE, src/snsd_mgt.c: it is sought among the devices of InfiniBand.
use nvme_snsd.Base.{
  ℕ, zero, suc, ◌≡◌, ◌↔◌, ◌⊎◌, inl, inr, Bool, true, false, not, ◌&&◌, ◌||◌, if◌then◌else◌, List,
  [], ◌∷◌, Option, none, some, ℤ, pos, negsuc, arith, Bool-cases,
}
use nvme_snsd.Config.Text.{str_eq, str_eq_iff}
use nvme_snsd.Config.Options.{codes}
use nvme_snsd.Discovery.Slaves.{BondingInfo, SlaveInfo}

-- `snsd_check_bonding_slave`.
unfoldable pub snsd_check_bonding_slave : List SlaveInfo → List ℕ → Bool
snsd_check_bonding_slave [] ib_name = false
snsd_check_bonding_slave (s ∷ ss) ib_name =
    let rest = snsd_check_bonding_slave ss ib_name in
    if str_eq ib_name s.slave_name then true else rest

abbrev pub is_dots : List ℕ → Bool
is_dots name = str_eq name (codes ".") || str_eq name (codes "..")

-- The port's own interface, or one of its slaves.
abbrev pub is_own : BondingInfo → List ℕ → List ℕ → Bool
is_own bonding phy_name name =
    if bonding.bonding_valid
    then snsd_check_bonding_slave bonding.slave name
    else str_eq name phy_name

-- The loop over the entries of a directory, up to the first one that passes the test.
unfoldable pub any_entry : (List ℕ → Bool) → List (List ℕ) → Bool
any_entry test [] = false
any_entry test (name ∷ names) =
    let rest = any_entry test names in
    if is_dots name then rest else if test name then true else rest

-- `snsd_check_ib_one_port`, on the entries of the directory; none is one that cannot be opened.
abbrev pub snsd_check_ib_one_port : BondingInfo → List ℕ → Option (List (List ℕ)) → Bool
snsd_check_ib_one_port bonding phy_name none = false
snsd_check_ib_one_port bonding phy_name (some names) = any_entry (is_own bonding phy_name) names

-- No slave is counted.
abbrev pub is_zero : ℤ → Bool
is_zero (pos n) = elim n [ zero ↦ true | suc k ↦ false ]
is_zero (negsuc n) = false

abbrev pub among : (List ℕ → Bool) → Option (List (List ℕ)) → Bool
among test none = false
among test (some devices) = any_entry test devices

-- `snsd_protocol_ib`: `devices` are the entries of /sys/class/infiniband, and `nets` gives those of a
-- device's directory of interfaces, whose path is not cut.
unfoldable pub snsd_protocol_ib :
    Bool → BondingInfo → List ℕ → Option (List (List ℕ)) → (List ℕ → Option (List (List ℕ))) → Bool
unfolding any_entry snsd_check_bonding_slave
snsd_protocol_ib is_new bonding phy_name devices nets =
    if not is_new && (not bonding.bonding_valid || not bonding.bonding_change)
    then true
    else if bonding.bonding_valid && is_zero bonding.slaves_count
    then false
    else among (λ device. snsd_check_ib_one_port bonding phy_name (nets device)) devices

-- An entry of a directory, not one of its own two names.
abbrev pub Entry : (List ℕ → Type 0) → List (List ℕ) → Type 0
Entry P [] = ⊥
Entry P (name ∷ names) = ((is_dots name ≡ false) × P name) ⊎ Entry P names

abbrev pub HasSlave : List ℕ → List SlaveInfo → Type 0
HasSlave name [] = ⊥
HasSlave name (s ∷ ss) = (name ≡ s.slave_name) ⊎ HasSlave name ss

-- The interface that carries the port, or one of those that are bonded to it.
abbrev pub Own : BondingInfo → List ℕ → List ℕ → Type 0
Own bonding phy_name name =
    ((bonding.bonding_valid ≡ true) × HasSlave name bonding.slave)
    ⊎ ((bonding.bonding_valid ≡ false) × (name ≡ phy_name))

abbrev pub InDirectory : (List ℕ → Type 0) → Option (List (List ℕ)) → Type 0
InDirectory P none = ⊥
InDirectory P (some names) = Entry P names

any_entry_iff :
    (test : List ℕ → Bool) (P : List ℕ → Type 0) (names : List (List ℕ))
    → ((name : List ℕ) → (test name ≡ true) ↔ P name)
    → (any_entry test names ≡ true) ↔ Entry P names
unfolding any_entry
any_entry_iff test P [] h = (λ e. absurd cc, λ e. absurd e)
any_entry_iff test P (name ∷ names) h =
    let rest = any_entry_iff test P names h in
    (
      λ e. elim (Bool-cases (is_dots name)) [
        | inl dots ↦ inr (rest.0 (ground arith))
        | inr plain ↦ elim (Bool-cases (test name)) [
          | inl yes' ↦ inl (plain, (h name).0 yes')
          | inr no' ↦ inr (rest.0 (ground arith))
        ]
      ],
      λ o. elim o [
        | inl (plain, p) ↦ ground (arith, (h name).1 p)
        | inr r ↦ ground (arith, rest.1 r)
      ],
    )

check_bonding_slave_iff :
    (ss : List SlaveInfo) (name : List ℕ)
    → (snsd_check_bonding_slave ss name ≡ true) ↔ HasSlave name ss
unfolding snsd_check_bonding_slave
check_bonding_slave_iff [] name = (λ e. absurd cc, λ e. absurd e)
check_bonding_slave_iff (s ∷ ss) name =
    let rest = check_bonding_slave_iff ss name in
    let same = str_eq_iff name s.slave_name in
    (
      λ e. elim (Bool-cases (str_eq name s.slave_name)) [
        | inl here ↦ inl (same.0 here)
        | inr other ↦ inr (rest.0 (ground arith))
      ],
      λ o. elim o [
        | inl here ↦ ground (arith, same.1 here)
        | inr there ↦ ground (arith, rest.1 there)
      ],
    )

is_own_iff :
    (bonding : BondingInfo) (phy_name name : List ℕ)
    → (is_own bonding phy_name name ≡ true) ↔ Own bonding phy_name name
is_own_iff bonding phy_name name =
    let slave = check_bonding_slave_iff bonding.slave name in
    let same = str_eq_iff name phy_name in
    (
      λ e. elim (Bool-cases bonding.bonding_valid) [
        | inl valid ↦ inl (valid, slave.0 (ground arith))
        | inr invalid ↦ inr (invalid, same.0 (ground arith))
      ],
      λ o. elim o [
        | inl (valid, h) ↦ ground (arith, slave.1 h)
        | inr (invalid, h) ↦ ground (arith, same.1 h)
      ],
    )

ib_one_port_iff :
    (bonding : BondingInfo) (phy_name : List ℕ) (o : Option (List (List ℕ)))
    → (snsd_check_ib_one_port bonding phy_name o ≡ true) ↔ InDirectory (Own bonding phy_name) o
ib_one_port_iff bonding phy_name none = (λ e. absurd cc, λ e. absurd e)
ib_one_port_iff bonding phy_name (some names) =
    any_entry_iff (is_own bonding phy_name) (Own bonding phy_name) names
      (is_own_iff bonding phy_name)

among_iff :
    (test : List ℕ → Bool) (P : List ℕ → Type 0) (o : Option (List (List ℕ)))
    → ((name : List ℕ) → (test name ≡ true) ↔ P name)
    → (among test o ≡ true) ↔ InDirectory P o
among_iff test P none h = (λ e. absurd cc, λ e. absurd e)
among_iff test P (some names) h = any_entry_iff test P names h

-- Among the devices of InfiniBand one has the interface that carries the port, or one that is bonded to it.
abbrev pub Speaks :
    BondingInfo → List ℕ → Option (List (List ℕ)) → (List ℕ → Option (List (List ℕ))) → Type 0
Speaks bonding phy_name devices nets =
    InDirectory (λ device. InDirectory (Own bonding phy_name) (nets device)) devices

-- A new port passes the check exactly where a device of InfiniBand has the interface that carries it, or
-- one that is bonded to it; a bonded port whose count of slaves is zero does not pass.
pub protocol_ib_iff :
    (bonding : BondingInfo) (phy_name : List ℕ) (devices : Option (List (List ℕ)))
    (nets : List ℕ → Option (List (List ℕ)))
    → (snsd_protocol_ib true bonding phy_name devices nets ≡ true) ↔ (
        ((bonding.bonding_valid && is_zero bonding.slaves_count) ≡ false)
        × Speaks bonding phy_name devices nets)
unfolding snsd_protocol_ib
protocol_ib_iff bonding phy_name devices nets =
    let found =
      among_iff (λ device. snsd_check_ib_one_port bonding phy_name (nets device))
        (λ device. InDirectory (Own bonding phy_name) (nets device)) devices
        (λ device. ib_one_port_iff bonding phy_name (nets device)) in
    (
      λ e. elim (Bool-cases (bonding.bonding_valid && is_zero bonding.slaves_count)) [
        | inl empty ↦ absurd (ground arith)
        | inr counted ↦ (counted, found.0 (ground arith))
      ],
      λ h. rw h.0 (found.1 h.1),
    )
