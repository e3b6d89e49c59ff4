-- ===== src/Switch/Handle.antt =====
-- What one look at a switched port keeps, and when it sends.
use nvme_snsd.Base.{
  ℕ, ◌≡◌, refl, subst, ◌∙◌, Bool, true, false, if_cases, List, Option, none, some, get_elem?,
  Status, is_success, success, failure, arith,
}
use nvme_snsd.Net.{is_linkup}
use nvme_snsd.Discovery.Slaves.{SlaveInfo, BondingInfo}
use nvme_snsd.Discovery.Live.{Current}
use nvme_snsd.Frame.Bonding.{Link}
use nvme_snsd.Switch.FdInfo.{PortFd, switch_get_fd_info}
use nvme_snsd.Switch.Unique.{Unique, get_fd_info-Unique}
use nvme_snsd.Switch.FdData.{switch_get_fd_data, get_fd_data-Unique, release-Unique}
use nvme_snsd.Switch.Slaves.{Fds, after_fd, put_at, switch_get_bonding_fd}
use nvme_snsd.Switch.Settled.{Settled, get_bonding_fd-Settled}
use nvme_snsd.Switch.Poll.{LldpRunInfo, calc_expires_for_new, switch_check_lldp_send}
use nvme_snsd.Switch.Port.{
  SwitchPort, GotPort, Handled, phy_got, bonding_phy_got, switch_get_bonding_phy_fd, old_time_at,
  bonding_done, now_valid, switch_get_phy_fd, with_bonding, switch_get_fd, frame_result, check_send,
  run_valid, after_change, if_started, switch_port_exist_handle,
}

-- The slaves are current and the table has no port twice.
abbrev pub Sound : SwitchPort → Fds → Type 0
Sound p fds = Current p.bonding × Unique fds.table

abbrev GotOk : ℕ → GotPort → Type 0
GotOk flags g = Sound g.port g.fds × (g.port.port_flags ≡ flags)

-- A handled port is sound, and a frame or a query goes out only on a port whose link is up and whose
-- sockets are there.
abbrev pub HandledOk : ℕ → Handled → Type 0
HandledOk flags h =
    Sound h.port h.fds
    × (h.frame ≡ true → (is_linkup flags ≡ true) × (h.port.lldp.valid ≡ true))
    × (h.query ≡ true → (is_linkup flags ≡ true) × (h.port.lldp.valid ≡ true))

pub put_at-Unique :
    (i index now : ℕ) (fds : Fds) → Unique fds.table → Unique (put_at i index now fds).table
put_at-Unique i index now fds u =
    release-Unique i index now fds.table (get_elem? fds.table i) refl u

check_lldp_send-up :
    (sent : Status) (flags now : ℕ) (lldp : LldpRunInfo)
    → ((switch_check_lldp_send sent flags now lldp).0 ≡ true → is_linkup flags ≡ true)
      × ((switch_check_lldp_send sent flags now lldp).1.valid ≡ lldp.valid)
unfolding switch_check_lldp_send
check_lldp_send-up sent flags now lldp = (ground arith, ground arith)

module _ (sock : ℕ → Option ℕ) (added : ℕ → Status) (now : ℕ) where
  phy_got-Ok :
      (p : SwitchPort) (fds : Fds) (o : Option (ℕ × ℕ))
      → Sound p fds
      → GotOk p.port_flags (phy_got p fds o)
  phy_got-Ok p fds none ok = (ok, refl)
  phy_got-Ok p fds (some r) ok = (ok, refl)

  get_phy_fd-Ok :
      (p : SwitchPort) (fds : Fds)
      → Sound p fds
      → GotOk p.port_flags (switch_get_phy_fd sock added now p fds)
  unfolding switch_get_phy_fd
  get_phy_fd-Ok p fds ok =
      let d =
        switch_get_fd_data (sock p.phy_ifindex) (added p.phy_ifindex) p.phy_ifindex true now
          fds.table in
      phy_got-Ok p (after_fd d fds) d.got (
        ok.0,
        get_fd_data-Unique (sock p.phy_ifindex) (added p.phy_ifindex) p.phy_ifindex true now
            fds.table ok.1,
      )

  bonding_phy_got-Ok :
      (p : SwitchPort) (fds : Fds) (r : List PortFd × Option (ℕ × ℕ))
      → Current p.bonding
      → Unique r.0
      → GotOk p.port_flags (bonding_phy_got p fds r)
  bonding_phy_got-Ok p fds (table, none) c u = ((c, u), refl)
  bonding_phy_got-Ok p fds (table, some r) c u = ((c, u), refl)

  bonding_done-Ok :
      (p : SwitchPort) (r : BondingInfo × (Fds × Status))
      → Settled r
      → GotOk p.port_flags (bonding_done now p r)
  bonding_done-Ok p (bonding, (fds, success)) (c, u, s) = ((c, u), refl)
  bonding_done-Ok p (bonding, (fds, failure e)) (c, u, s) =
      ((c, put_at-Unique p.index p.name_index now fds u), refl)

  with_bonding-Ok :
      (flags : ℕ) (g : GotPort) → GotOk flags g → GotOk flags (with_bonding sock added now g)
  with_bonding-Ok flags g (ok, same) =
      let r = switch_get_bonding_fd sock added now g.port.bonding g.fds in
      if_cases (GotOk flags) (is_success g.result)
        (λ _.
          let d =
            bonding_done-Ok g.port r
              (get_bonding_fd-Settled sock added now g.port.bonding g.fds ok.0 ok.1) in
          (d.0, d.1 ∙ same))
        λ _. (ok, same)

  now_valid-Ok : (flags : ℕ) (g : GotPort) → GotOk flags g → GotOk flags (now_valid g)
  now_valid-Ok flags g ok = if_cases (GotOk flags) (is_success g.result) (λ _. ok) λ _. ok

  get_bonding_phy_fd-Ok :
      (p : SwitchPort) (fds : Fds)
      → Sound p fds
      → GotOk p.port_flags (switch_get_bonding_phy_fd now p fds)
  unfolding switch_get_bonding_phy_fd
  get_bonding_phy_fd-Ok p fds ok =
      bonding_phy_got-Ok p fds (switch_get_fd_info p.phy_ifindex true now fds.table) ok.0
        (get_fd_info-Unique p.phy_ifindex true now fds.table ok.1)

  get_fd-Ok :
      (p : SwitchPort) (fds : Fds)
      → Sound p fds
      → GotOk p.port_flags (switch_get_fd sock added now p fds)
  unfolding switch_get_fd
  get_fd-Ok p fds ok =
      let Q = λ (g : GotPort). GotOk p.port_flags (now_valid g) in
      if_cases Q p.bonding.bonding_valid
        (λ _. now_valid-Ok p.port_flags _ (
          with_bonding-Ok p.port_flags (switch_get_bonding_phy_fd now p fds)
            (get_bonding_phy_fd-Ok p fds ok)))
        λ _. now_valid-Ok p.port_flags _ (get_phy_fd-Ok p fds ok)

module _ (send : SwitchPort → Status) (link : SlaveInfo → Link) (send_slave : SlaveInfo → Status)
    (now : ℕ) where
  check_send-Ok :
      (p : SwitchPort) (fds : Fds) (query : Bool)
      → Sound p fds
      → p.lldp.valid ≡ true
      → (query ≡ true → is_linkup p.port_flags ≡ true)
      → HandledOk p.port_flags (check_send send link send_slave now p fds query)
  unfolding frame_result
  check_send-Ok p fds query ok valid up =
      let c =
        check_lldp_send-up (frame_result send link send_slave now p) p.port_flags now p.lldp in
      (ok, (λ e. (c.0 e, c.1 ∙ valid)), λ e. (up e, c.1 ∙ valid))

  run_valid-Ok :
      (p : SwitchPort) (fds : Fds)
      → Sound p fds
      → p.lldp.valid ≡ true
      → HandledOk p.port_flags (run_valid send link send_slave now p fds)
  run_valid-Ok p fds ok valid =
      if_cases (HandledOk p.port_flags) p.vlan_change (λ _. (ok, (λ e. absurd cc), λ e. absurd cc))
        λ _. check_send-Ok p fds false ok valid λ e. absurd cc

  after_change-Ok :
      (p : SwitchPort) (r : BondingInfo × (Fds × Status))
      → Settled r
      → p.lldp.valid ≡ true
      → HandledOk p.port_flags (after_change send link send_slave now p r)
  after_change-Ok p (bonding, (fds, failure e)) (c, u, s) valid =
      ((c, u), (λ e. absurd cc), λ e. absurd cc)
  after_change-Ok p (bonding, (fds, success)) (c, u, s) valid =
      run_valid-Ok (record p { bonding = bonding }) fds (c, u) valid

  if_started-Ok :
      (flags : ℕ) (g : GotPort)
      → GotOk flags g
      → HandledOk flags (if_started send link send_slave now g)
  if_started-Ok flags g (ok, same) =
      subst (λ f. HandledOk f (if_started send link send_slave now g)) same
        (if_cases (HandledOk g.port.port_flags) g.port.lldp.valid
          (λ valid.
            let old_time = old_time_at (get_elem? g.fds.table g.port.index) in
            let lldp' : LldpRunInfo = record g.port.lldp {
              interval_clock = 30;
              expires = calc_expires_for_new old_time now;
            } in
            check_send-Ok (record g.port { lldp = lldp' }) g.fds (is_linkup g.port.port_flags) ok
              valid λ e. e)
          λ _. (ok, (λ e. absurd cc), λ e. absurd cc))

  -- One look at a port that is still there, whatever fails in it: the slaves of a bonded port that are
  -- not to be deleted stay those that the kept text names, and are counted; no port gets two entries
  -- of the table; and a frame or a query goes out only where the link is up and the port has its sockets.
  pub exist_handle-Handled :
      (sock : ℕ → Option ℕ) (added : ℕ → Status) (p : SwitchPort) (fds : Fds)
      → Sound p fds
      → HandledOk p.port_flags (switch_port_exist_handle send link send_slave now sock added p fds)
  unfolding switch_port_exist_handle
  exist_handle-Handled sock added p fds ok =
      let Q = HandledOk p.port_flags in
      if_cases Q p.lldp.valid
        (λ valid.
          if_cases Q p.bonding.bonding_change
            (λ _.
              after_change-Ok p (switch_get_bonding_fd sock added now p.bonding fds)
                (get_bonding_fd-Settled sock added now p.bonding fds ok.0 ok.1) valid)
            λ _. run_valid-Ok p fds ok valid)
        λ _.
          if_started-Ok p.port_flags (switch_get_fd sock added now p fds)
            (get_fd-Ok sock added now p fds ok)
