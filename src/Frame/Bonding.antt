-- ===== src/Frame/Bonding.antt =====
-- Sending the frames of a bonded port, `lldp_send_bonding` of src/snsd_reg.c.
use nvme_snsd.Base.{
  ℕ, Bool, true, false, if◌then◌else◌, List, [], ◌∷◌, Option, none, some, Status, success, failure,
  eagain,
}
use nvme_snsd.Net.{is_linkup}
use nvme_snsd.Discovery.Slaves.{SlaveInfo}

-- What the kernel answers for a slave: whether there is a socket, and the flags of the link.
pub record Link : Type 0 where
  pub socket : Bool
  pub flags : Option ℕ

module _ (link : SlaveInfo → Link) (send : SlaveInfo → Status) where
  -- `lldp_send_slave`: whether a frame is sent, and the result.
  abbrev at_flags : SlaveInfo → Option ℕ → Bool × Status
  at_flags slave none = (false, failure eagain)
  at_flags slave (some flags) = if is_linkup flags then (true, send slave) else (false, success)

  unfoldable pub lldp_send_slave : SlaveInfo → Bool × Status
  lldp_send_slave slave =
      if (link slave).socket then at_flags slave (link slave).flags else (false, failure eagain)

  -- `lldp_send_bonding`: the slaves to which a frame is sent, and the result.
  abbrev after_slave : SlaveInfo → Bool × Status → List SlaveInfo × Status → List SlaveInfo × Status
  after_slave slave (sent, failure e) rest = (if sent then slave ∷ [] else [], failure e)
  after_slave slave (sent, success) rest = (if sent then slave ∷ rest.0 else rest.0, rest.1)

  unfoldable pub lldp_send_bonding : List SlaveInfo → List SlaveInfo × Status
  unfolding lldp_send_slave
  lldp_send_bonding [] = ([], success)
  lldp_send_bonding (slave ∷ slaves) =
      after_slave slave (lldp_send_slave slave) (lldp_send_bonding slaves)
