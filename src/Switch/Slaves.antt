-- ===== src/Switch/Slaves.antt =====
-- The sockets of the slaves of a bonded port, src/snsd_switch.c.
use nvme_snsd.Base.{
  ℕ, Bool, true, false, if◌then◌else◌, List, [], ◌∷◌, ◌++◌, Option, none, some, get_elem?, ℤ, decr,
  Status, success, failure, eagain,
}
use nvme_snsd.Discovery.Slaves.{SlaveInfo, BondingInfo}
use nvme_snsd.Switch.FdInfo.{PortFd}
use nvme_snsd.Switch.FdData.{FdData, release, switch_get_fd_data}

-- The table of sockets, and the sockets that have been closed.
pub record Fds : Type 0 where
  pub table : List PortFd
  pub closed : List ℕ

abbrev pub note_closed : Option ℕ → List ℕ → List ℕ
note_closed none closed = closed
note_closed (some fd) closed = closed ++ fd ∷ []

abbrev pub after_fd : FdData → Fds → Fds
after_fd d fds = record { table = d.table; closed = note_closed d.closed fds.closed }

-- `switch_put_fd_info` at a place of the table.
abbrev pub put_at : ℕ → ℕ → ℕ → Fds → Fds
put_at i index now fds = after_fd (release i index now fds.table (get_elem? fds.table i)) fds

-- `switch_free_slave_fd`, on the table: what comes of taking the address away is not looked at.
unfoldable pub switch_free_slave_fd : ℕ → SlaveInfo → Fds → Fds
switch_free_slave_fd now slave fds = put_at slave.fd_index 0 now fds

-- `switch_free_bonding_fd`.
unfoldable pub switch_free_bonding_fd : ℕ → List SlaveInfo → Fds → Fds
unfolding switch_free_slave_fd
switch_free_bonding_fd now [] fds = fds
switch_free_bonding_fd now (s ∷ ss) fds =
    switch_free_bonding_fd now ss (switch_free_slave_fd now s fds)

-- What the loop of `switch_get_bonding_fd` leaves; `finished` is that it went over all the slaves.
pub record Got : Type 0 where
  pub slave : List SlaveInfo
  pub slaves_count : ℤ
  pub fds : Fds
  pub finished : Bool

abbrev pub keep : SlaveInfo → Got → Got
keep s r = record r { slave = s ∷ r.slave }

abbrev pub fd_at : Option PortFd → Option ℕ
fd_at none = none
fd_at (some e) = e.fd

-- A slave with the entry that it has got, and its socket.
abbrev pub with_fd : SlaveInfo → ℕ → List PortFd → SlaveInfo
with_fd s i table = record s { fd_index = i; fd = fd_at (get_elem? table i); fd_valid = true }

-- After `switch_get_fd_data`.
abbrev pub got_fd :
    SlaveInfo → List SlaveInfo → (ℤ → Fds → Got) → ℤ → Fds → List PortFd → Option (ℕ × ℕ) → Got
got_fd s ss next count fds table none = record {
  slave = s ∷ ss;
  slaves_count = count;
  fds = fds;
  finished = false;
}
got_fd s ss next count fds table (some (i, index)) = keep (with_fd s i table) (next count fds)

-- What opening a socket and adding an address come to is asked for a slave's interface.
module _ (sock : ℕ → Option ℕ) (added : ℕ → Status) (now : ℕ) where
  abbrev pub get_slave_fd : ℕ → Fds → FdData
  get_slave_fd ifindex fds =
      switch_get_fd_data (sock ifindex) (added ifindex) ifindex false now fds.table

  -- The body of the loop, on whether the slave is to be deleted and whether it has a socket; `next` is
  -- the loop over the slaves after it.
  abbrev pub at_slave : Bool → Bool → SlaveInfo → List SlaveInfo → (ℤ → Fds → Got) → ℤ → Fds → Got
  at_slave true true s ss next count fds = next (decr count) (switch_free_slave_fd now s fds)
  at_slave true false s ss next count fds = next (decr count) fds
  at_slave false true s ss next count fds = keep s (next count fds)
  at_slave false false s ss next count fds =
      let d = get_slave_fd s.slave_ifindex fds in
      got_fd s ss next count (after_fd d fds) d.table d.got

  unfoldable pub get_slave_fds : List SlaveInfo → ℤ → Fds → Got
  unfolding switch_free_slave_fd switch_get_fd_data
  get_slave_fds [] count fds = record {
    slave = [];
    slaves_count = count;
    fds = fds;
    finished = true;
  }
  get_slave_fds (s ∷ ss) count fds = at_slave s.deleted s.fd_valid s ss (get_slave_fds ss) count fds

  abbrev pub bonding_got : BondingInfo → Got → BondingInfo × (Fds × Status)
  bonding_got info r = (
    record info {
      slave = r.slave;
      slaves_count = r.slaves_count;
      bonding_change = if r.finished then false else info.bonding_change;
    },
    (r.fds, if r.finished then success else failure eagain),
  )

  -- `switch_get_bonding_fd`.
  unfoldable pub switch_get_bonding_fd : BondingInfo → Fds → BondingInfo × (Fds × Status)
  unfolding get_slave_fds
  switch_get_bonding_fd info fds = bonding_got info (get_slave_fds info.slave info.slaves_count fds)
