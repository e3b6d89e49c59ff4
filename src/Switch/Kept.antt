-- ===== src/Switch/Kept.antt =====
-- What the pass over the switched ports keeps.
use nvme_snsd.Base.{
  ℕ, Bool, true, false, not, ◌==◌, if_cases, List, [], ◌∷◌, Option, Status, success, failure, All,
}
use nvme_snsd.Net.{ConnectParam}
use nvme_snsd.Connect.{Added, Templates, snsd_disconnect_by_host_traddr}
use nvme_snsd.Discovery.Slaves.{SlaveInfo}
use nvme_snsd.Discovery.Live.{Current}
use nvme_snsd.Frame.Bonding.{Link}
use nvme_snsd.Switch.Unique.{Unique}
use nvme_snsd.Switch.Slaves.{Fds, switch_free_bonding_fd}
use nvme_snsd.Switch.Settled.{free_slave-Unique}
use nvme_snsd.Switch.Port.{SwitchPort, switch_port_delete}
use nvme_snsd.Switch.Handle.{Sound, put_at-Unique, exist_handle-Handled}
use nvme_snsd.Switch.Pass.{Pass, looked_at, is_gone, handle_ports, switch_port_handle}

free_bonding-Unique :
    (now : ℕ) (ss : List SlaveInfo) (fds : Fds)
    → Unique fds.table
    → Unique (switch_free_bonding_fd now ss fds).table
unfolding switch_free_bonding_fd
free_bonding-Unique now [] fds u = u
free_bonding-Unique now (s ∷ ss) fds u =
    free_bonding-Unique now ss _ (free_slave-Unique now s fds u)

port_delete-Unique :
    (now : ℕ) (p : SwitchPort) (fds : Fds)
    → Unique fds.table
    → Unique (switch_port_delete now p fds).table
unfolding switch_port_delete
port_delete-Unique now p fds u =
    let put = put_at-Unique p.index p.name_index now fds u in
    let Q = λ (f : Fds). Unique f.table in
    if_cases Q (not p.lldp.valid) (λ _. u)
      λ _.
        if_cases Q p.bonding.bonding_valid (λ _. free_bonding-Unique now p.bonding.slave _ put)
          λ _. put

-- The slaves of every port are current, and the table has no port twice.
abbrev pub AllSound : Pass → Type 0
AllSound r = All (λ (p : SwitchPort). Current p.bonding) r.ports × Unique r.fds.table

module _ (worker : ConnectParam → Status) (ts : Templates) (send : SwitchPort → Status)
    (link : SlaveInfo → Link) (send_slave : SlaveInfo → Status) (sock : ℕ → Option ℕ)
    (added : ℕ → Status) (now : ℕ) where
  looked_at-Sound :
      (need : Bool) (p : SwitchPort) (fds : Fds)
      → Sound p fds
      → Sound
          (looked_at worker ts send link send_slave sock added now need p fds).port
          (looked_at worker ts send link send_slave sock added now need p fds).fds
  looked_at-Sound true p fds ok =
      (exist_handle-Handled send link send_slave now sock added p fds ok).0
  looked_at-Sound false p fds ok = ok

  gone-AllSound :
      (p : SwitchPort) (fds : Fds) (r : List Added × Status) (next : Fds → Pass)
      → Sound p fds
      → ((f : Fds) → Unique f.table → AllSound (next f))
      → AllSound (is_gone worker ts send link send_slave sock added now p fds r next)
  gone-AllSound p fds (tasks, success) next ok all =
      all (switch_port_delete now p fds) (port_delete-Unique now p fds ok.1)
  gone-AllSound p fds (tasks, failure e) next ok all = let r = all fds ok.1 in ((ok.0, r.0), r.1)

  handle_ports-AllSound :
      (need : Bool) (poll_count : ℕ) (ps : List SwitchPort) (fds : Fds)
      → All (λ (p : SwitchPort). Current p.bonding) ps
      → Unique fds.table
      → AllSound (handle_ports worker ts send link send_slave sock added now need poll_count ps fds)
  unfolding handle_ports
  handle_ports-AllSound need poll_count [] fds h u = (tt, u)
  handle_ports-AllSound need poll_count (p ∷ ps) fds h u =
      if_cases AllSound (p.count == poll_count)
        (λ _.
          let l = looked_at-Sound need p fds (h.0, u) in
          let r = handle_ports-AllSound need poll_count ps _ h.1 l.1 in ((l.0, r.0), r.1))
        λ _.
          gone-AllSound p fds (snsd_disconnect_by_host_traddr worker ts p.family p.ip) _ (h.0, u)
            λ f v. handle_ports-AllSound need poll_count ps f h.1 v

  -- A whole pass over the switched ports, whatever fails in it: for every port that is left, the slaves
  -- that are not to be deleted are those that the kept text names, and are counted; and no port has two
  -- entries of the table.
  pub port_handle-AllSound :
      (count poll_count : ℕ) (ps : List SwitchPort) (fds : Fds)
      → All (λ (p : SwitchPort). Current p.bonding) ps
      → Unique fds.table
      → AllSound
          (switch_port_handle worker ts send link send_slave sock added now count poll_count ps
            fds).0
  unfolding switch_port_handle
  port_handle-AllSound count poll_count ps fds h u = handle_ports-AllSound _ poll_count ps fds h u
