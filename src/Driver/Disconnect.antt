-- ===== src/Driver/Disconnect.antt =====
-- What disconnections reach, src/snsd_conn_nvme.c.
use nvme_snsd.Base.{
  ℕ, zero, suc, ◌<◌, ◌≡◌, ◌⊎◌, refl, Bool, true, not, ◌&&◌, if_cases, List, [], ◌∷◌, Option, some,
  arith, All,
}
use nvme_snsd.Net.{ConnectParam, sw}
use nvme_snsd.Config.Options.{codes}
use nvme_snsd.Driver.{
  NvmeCtx, CtrlState, live, fault, not_exist, unknown, Device, snsd_nvme_ctrl_match,
  snsd_nvme_ctrl_find,
}
use nvme_snsd.Driver.Connected.{Reached, ctrl_find-Reached}
use nvme_snsd.Driver.Options.{decimal}
use nvme_snsd.Driver.Context.{
  snsd_nvme_dis_ctx_init, family_of, Command, keep_alive, remove, snsd_nvme_retry_keep_alive,
  Meeting, after_keep_alive, on_found, snsd_nvme_disconnect, is_live,
}

module _ (inet_ntop inet_pton : ℕ → List ℕ → Option (List ℕ)) (strtoul : List ℕ → ℕ × List ℕ) where
  -- An address that is written as `inet_ntop` writes it.
  abbrev pub IsCanonical : ℕ → List ℕ → Type 0
  IsCanonical family text =
      (bytes : List ℕ) × (inet_pton family text ≡ some bytes) × (inet_ntop family bytes ≡ some text)

  -- A controller over RDMA or TCP, whose port and addresses are written as C writes them.
  pub record Addressable (n : NvmeCtx) : Type 0 where
    pub transport : (n.transport ≡ codes "rdma") ⊎ (n.transport ≡ codes "tcp")
    pub port : ℕ
    pub port_pos : 0 < port
    pub port_short : port < 65536
    pub trsvcid : n.trsvcid ≡ decimal port
    pub port_read_back : strtoul (decimal port) ≡ (port, [])
    pub traddr : IsCanonical (family_of n.host_traddr) n.traddr
    pub host_traddr : IsCanonical (family_of n.host_traddr) n.host_traddr

  -- The context of a task for these parameters finds the controller.
  abbrev pub Finds : NvmeCtx → ConnectParam → Type 0
  Finds n p =
      (c : NvmeCtx) × (snsd_nvme_dis_ctx_init inet_ntop p ≡ some c)
      × (snsd_nvme_ctrl_match c n ≡ true)

  abbrev pub Tasked : NvmeCtx → List ConnectParam → Type 0
  Tasked n [] = ⊥
  Tasked n (p ∷ ps) = Finds n p ⊎ Tasked n ps

  -- The parameters of the task for a controller.
  abbrev param_of : ℕ → ℕ → NvmeCtx → List ℕ → List ℕ → ConnectParam
  param_of protocol port n traddr host_traddr = record {
    protocol = protocol;
    portid = port;
    family = family_of n.host_traddr;
    traddr = traddr;
    host_traddr = host_traddr;
    subsysnqn = n.subsysnqn;
    mode = sw;
    action_flag = 0;
  }

  -- A controller of the directory.
  abbrev pub Present : NvmeCtx → List Device → Type 0
  Present n [] = ⊥
  Present n (d ∷ ds) = (d.profile ≡ some n) ⊎ Present n ds

-- A command of a disconnection: one that removes the controller is sent by force alone, to a controller
-- that was live, while one is live after the first command.
abbrev pub Justified : Bool → Meeting → NvmeCtx → Command → Type 0
Justified forced m ctx (keep_alive name) = Reached ctx name m.before
Justified forced m ctx (remove name) =
    (forced ≡ true)
    × Reached ctx name m.before
    × (is_live (snsd_nvme_ctrl_find ctx m.afterwards).0 ≡ true)

module _ (forced : Bool) (m : Meeting) (ctx : NvmeCtx) (name : List ℕ)
    (reached : Reached ctx name m.before) where
  retry-Justified :
      (n index : ℕ)
      → All (Justified forced m ctx) (snsd_nvme_retry_keep_alive n m.results name index)
  unfolding snsd_nvme_retry_keep_alive
  retry-Justified zero index = tt
  retry-Justified (suc n) index = (
    reached,
    if_cases (All (Justified forced m ctx)) (m.results index) (λ _. tt)
        λ _. retry-Justified n (suc index),
  )

  after_keep_alive-Justified : All (Justified forced m ctx) (after_keep_alive forced m ctx name)
  after_keep_alive-Justified =
      if_cases (All (Justified forced m ctx))
        (forced && is_live (snsd_nvme_ctrl_find ctx m.afterwards).0)
        (λ both. ((ground arith, reached, ground arith), tt))
        λ _.
          if_cases (All (Justified forced m ctx)) (not m.first_fails) (λ _. retry-Justified 100 0)
            λ _. tt

on_found-Justified :
    (forced : Bool) (m : Meeting) (ctx : NvmeCtx) (r : CtrlState × List ℕ)
    → snsd_nvme_ctrl_find ctx m.before ≡ r
    → All (Justified forced m ctx) (on_found forced m ctx r)
on_found-Justified forced m ctx (live, name) e =
    let reached = ctrl_find-Reached ctx m.before name e in
    (reached, after_keep_alive-Justified forced m ctx name reached)
on_found-Justified forced m ctx (fault, name) e = tt
on_found-Justified forced m ctx (not_exist, name) e = tt
on_found-Justified forced m ctx (unknown, name) e = tt

-- The commands of a disconnection go to a controller that was found live, not of discovery and with the
-- target's transport, service and addresses; it is removed only by force, and only where a controller of
-- the target is still live after the keep-alive.
pub disconnect-Justified :
    (forced : Bool) (m : Meeting) (ctx : NvmeCtx)
    → All (Justified forced m ctx) (snsd_nvme_disconnect forced m ctx)
unfolding snsd_nvme_disconnect
disconnect-Justified forced m ctx =
    on_found-Justified forced m ctx (snsd_nvme_ctrl_find ctx m.before) refl
