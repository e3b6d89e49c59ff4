-- ===== src/Driver/Connected.antt =====
-- Connections that succeed, src/snsd_conn_nvme.c.
use nvme_snsd.Base.{
  ℕ, ◌≡◌, ◌⊎◌, inl, inr, refl, subst, sym, ap, Bool, true, false, if_cases, List, [], ◌∷◌, Option,
  none, some, take, Status, success, failure, arith,
}
use nvme_snsd.Driver.{
  NvmeCtx, CtrlState, live, fault, not_exist, unknown, Device, snsd_nvme_ctrl_is_discovery,
  snsd_nvme_ctrl_match, snsd_nvme_ctrl_read_state, passed_over, at_device, find_device,
  snsd_nvme_ctrl_find, LogEntry, snsd_nvme_disc_log_entry_match, matching_entry, from_log,
  snsd_nvme_disc_get_subsysnqn, after_creation, by_state, discovered, with_nqn, snsd_nvme_connect,
}

-- A live controller of this name, not of discovery, with the target's transport, service and addresses.
abbrev pub HasLive : NvmeCtx → List ℕ → List Device → Type 0
HasLive ctx name [] = ⊥
HasLive ctx name (d ∷ ds) =
    ((d.dname ≡ name)
      × (snsd_nvme_ctrl_read_state d.state ≡ live)
      × ((n : NvmeCtx) × (d.profile ≡ some n)
          × (snsd_nvme_ctrl_is_discovery n ≡ false)
          × (snsd_nvme_ctrl_match ctx n ≡ true)))
    ⊎ HasLive ctx name ds

abbrev pub Reached : NvmeCtx → List ℕ → Option (List Device) → Type 0
Reached ctx name none = ⊥
Reached ctx name (some ds) = HasLive ctx name ds

abbrev LiveOk : NvmeCtx → List Device → CtrlState × List ℕ → Type 0
LiveOk ctx ds r = r.0 ≡ live → HasLive ctx r.1 ds

at_device-LiveOk :
    (ctx : NvmeCtx) (d : Device) (ds : List Device) (o : Option NvmeCtx) (rest : CtrlState × List ℕ)
    → d.profile ≡ o
    → LiveOk ctx ds rest
    → LiveOk ctx (d ∷ ds) (at_device ctx d o rest)
at_device-LiveOk ctx d ds none rest e h = λ f. absurd cc
at_device-LiveOk ctx d ds (some n) rest e h =
    if_cases (LiveOk ctx (d ∷ ds)) (passed_over ctx n) (λ _ f. inr (h f))
      λ here f. inl (refl, f, (n, e, ground arith, ground arith))

find_device-LiveOk : (ctx : NvmeCtx) (ds : List Device) → LiveOk ctx ds (find_device ctx ds)
unfolding find_device
find_device-LiveOk ctx [] = λ f. absurd cc
find_device-LiveOk ctx (d ∷ ds) =
    at_device-LiveOk ctx d ds d.profile (find_device ctx ds) refl (find_device-LiveOk ctx ds)

pub ctrl_find-Reached :
    (ctx : NvmeCtx) (scan : Option (List Device)) (name : List ℕ)
    → snsd_nvme_ctrl_find ctx scan ≡ (live, name)
    → Reached ctx name scan
ctrl_find-Reached ctx none name e =
    let f : unknown ≡ live = ap (λ (r : CtrlState × List ℕ). r.0) e in absurd cc
ctrl_find-Reached ctx (some ds) name e =
    subst (λ n. HasLive ctx n ds) (ap (λ (r : CtrlState × List ℕ). r.1) e)
      (find_device-LiveOk ctx ds (ap (λ (r : CtrlState × List ℕ). r.0) e))

module _ (create : NvmeCtx → Status × Option (List Device)) (discover : NvmeCtx → Status × List ℕ)
    (before : Option (List Device)) where
  -- The directory at the beginning, or after some creation.
  abbrev pub Seen : Option (List Device) → Type 0
  Seen scan = (scan ≡ before) ⊎ ((c : NvmeCtx) × (scan ≡ (create c).1))

  abbrev pub LiveSeen : NvmeCtx → List ℕ → Type 0
  LiveSeen ctx name = (scan : Option (List Device)) × Seen scan × Reached ctx name scan

  -- A connection that succeeds names such a controller.
  abbrev Connected : NvmeCtx → NvmeCtx × Status → Type 0
  Connected ctx r = r.1 ≡ success → LiveSeen ctx r.0.dname

  creation-Connected :
      (ctx : NvmeCtx) (status : Status) (r : CtrlState × List ℕ)
      → snsd_nvme_ctrl_find ctx (create ctx).1 ≡ r
      → Connected ctx (after_creation ctx status r)
  creation-Connected ctx (failure e) r h = λ f. absurd cc
  creation-Connected ctx success (live, name) h =
      λ _. ((create ctx).1, inr (ctx, refl), ctrl_find-Reached ctx (create ctx).1 name h)
  creation-Connected ctx success (fault, name) h = λ f. absurd cc
  creation-Connected ctx success (not_exist, name) h = λ f. absurd cc
  creation-Connected ctx success (unknown, name) h = λ f. absurd cc

  by_state-Connected :
      (ctx : NvmeCtx) (r : CtrlState × List ℕ)
      → snsd_nvme_ctrl_find ctx before ≡ r
      → Connected ctx (by_state create discover before ctx r)
  by_state-Connected ctx (live, name) h =
      λ _. (before, inl refl, ctrl_find-Reached ctx before name h)
  by_state-Connected ctx (not_exist, name) h = creation-Connected ctx (create ctx).0 _ refl
  by_state-Connected ctx (fault, name) h = λ f. absurd cc
  by_state-Connected ctx (unknown, name) h = λ f. absurd cc

  -- Another name of the subsystem is the same target.
  same-HasLive :
      (ctx : NvmeCtx) (nqn name : List ℕ) (ds : List Device)
      → HasLive (record ctx { subsysnqn = nqn }) name ds
      → HasLive ctx name ds
  same-HasLive ctx nqn name [] h = h
  same-HasLive ctx nqn name (d ∷ ds) (inl h) = inl h
  same-HasLive ctx nqn name (d ∷ ds) (inr h) = inr (same-HasLive ctx nqn name ds h)

  same-Reached :
      (ctx : NvmeCtx) (nqn name : List ℕ) (scan : Option (List Device))
      → Reached (record ctx { subsysnqn = nqn }) name scan
      → Reached ctx name scan
  same-Reached ctx nqn name none h = h
  same-Reached ctx nqn name (some ds) h = same-HasLive ctx nqn name ds h

  same-Connected :
      (ctx : NvmeCtx) (nqn : List ℕ) (r : NvmeCtx × Status)
      → Connected (record ctx { subsysnqn = nqn }) r
      → Connected ctx r
  same-Connected ctx nqn r h = λ e.
      let (scan, seen, reached) = h e in (scan, seen, same-Reached ctx nqn r.0.dname scan reached)

  discovered-Connected :
      (ctx : NvmeCtx) (r : Status × List ℕ)
      → Connected ctx (discovered create discover before ctx r)
  unfolding find_device
  discovered-Connected ctx (failure e, nqn) = λ f. absurd cc
  discovered-Connected ctx (success, nqn) =
      let named : NvmeCtx = record ctx { subsysnqn = nqn } in
      let found : CtrlState × List ℕ = snsd_nvme_ctrl_find named before in
      same-Connected ctx nqn (by_state create discover before named found)
        (by_state-Connected named found refl)

  with_nqn-Connected :
      (ctx : NvmeCtx) (nqn : List ℕ) → Connected ctx (with_nqn create discover before ctx nqn)
  with_nqn-Connected ctx [] = discovered-Connected ctx (discover ctx)
  with_nqn-Connected ctx (c ∷ cs) = by_state-Connected ctx _ refl

  -- A connection that succeeds, after whatever discovery and creation, leaves in the context the name of
  -- a controller that is live, is not of discovery and has the target's transport, service and addresses,
  -- in the directory as it was looked up at the beginning or after a creation.
  pub nvme_connect-Connected :
      (ctx : NvmeCtx)
      → (snsd_nvme_connect create discover before ctx).1 ≡ success
      → LiveSeen ctx (snsd_nvme_connect create discover before ctx).0.dname
  unfolding snsd_nvme_connect
  nvme_connect-Connected ctx = with_nqn-Connected ctx ctx.subsysnqn

-- The result of a connection keeps the name of the subsystem.
abbrev Keeps : List ℕ → NvmeCtx × Status → Type 0
Keeps nqn r = r.0.subsysnqn ≡ nqn

creation-Keeps :
    (ctx : NvmeCtx) (status : Status) (r : CtrlState × List ℕ)
    → Keeps ctx.subsysnqn (after_creation ctx status r)
creation-Keeps ctx (failure e) r = refl
creation-Keeps ctx success (live, name) = refl
creation-Keeps ctx success (fault, name) = refl
creation-Keeps ctx success (not_exist, name) = refl
creation-Keeps ctx success (unknown, name) = refl

-- An entry of the log that matches the target has this name, cut at 255 bytes.
abbrev pub Announced : (NvmeCtx → LogEntry → Bool) → NvmeCtx → List LogEntry → List ℕ → Type 0
Announced match ctx [] nqn = ⊥
Announced match ctx (entry ∷ rest) nqn =
    ((match ctx entry ≡ true) × (take 255 entry.subnqn ≡ nqn)) ⊎ Announced match ctx rest nqn

module _ (create : NvmeCtx → Status × Option (List Device))
    (same_ipv4 same_ipv6 : List ℕ → List ℕ → Bool) (log : NvmeCtx → Status × List LogEntry)
    (before : Option (List Device)) where
  abbrev matches : NvmeCtx → LogEntry → Bool
  matches = snsd_nvme_disc_log_entry_match same_ipv4 same_ipv6

  abbrev discover : NvmeCtx → Status × List ℕ
  discover = snsd_nvme_disc_get_subsysnqn same_ipv4 same_ipv6 log

  by_state-Keeps :
      (ctx : NvmeCtx) (r : CtrlState × List ℕ)
      → Keeps ctx.subsysnqn (by_state create discover before ctx r)
  by_state-Keeps ctx (live, name) = refl
  by_state-Keeps ctx (not_exist, name) =
      creation-Keeps ctx (create ctx).0 (snsd_nvme_ctrl_find ctx (create ctx).1)
  by_state-Keeps ctx (fault, name) = refl
  by_state-Keeps ctx (unknown, name) = refl

  matching_entry-Announced :
      (ctx : NvmeCtx) (entries : List LogEntry)
      → (matching_entry same_ipv4 same_ipv6 ctx entries).0 ≡ success
      → Announced matches ctx entries (matching_entry same_ipv4 same_ipv6 ctx entries).1
  unfolding matching_entry
  matching_entry-Announced ctx [] = λ e. absurd cc
  matching_entry-Announced ctx (entry ∷ rest) =
      if_cases (λ (r : Status × List ℕ). r.0 ≡ success → Announced matches ctx (entry ∷ rest) r.1)
        (matches ctx entry) (λ found e. inl (found, refl))
        λ _ e. inr (matching_entry-Announced ctx rest e)

  from_log-Announced :
      (ctx : NvmeCtx) (r : Status × List LogEntry)
      → (from_log same_ipv4 same_ipv6 ctx r).0 ≡ success
      → Announced matches ctx r.1 (from_log same_ipv4 same_ipv6 ctx r).1
  unfolding matching_entry
  from_log-Announced ctx (failure e, entries) = λ f. absurd cc
  from_log-Announced ctx (success, entries) = matching_entry-Announced ctx entries

  discovered-Announced :
      (ctx : NvmeCtx) (entries : List LogEntry) (r : Status × List ℕ)
      → (r.0 ≡ success → Announced matches ctx entries r.1)
      → (discovered create discover before ctx r).1 ≡ success
      → Announced matches ctx entries (discovered create discover before ctx r).0.subsysnqn
  unfolding find_device
  discovered-Announced ctx entries (failure e, nqn) h = λ f. absurd cc
  discovered-Announced ctx entries (success, nqn) h = λ _.
      let named : NvmeCtx = record ctx { subsysnqn = nqn } in
      subst (λ n. Announced matches ctx entries n)
        (sym (by_state-Keeps named (snsd_nvme_ctrl_find named before))) (h refl)

  -- Where the target's subsystem is not known, a connection that succeeds takes its name, cut at 255 bytes,
  -- from a record of the discovery log that matches the target.
  nvme_connect-Announced :
      (ctx : NvmeCtx)
      → ctx.subsysnqn ≡ []
      → (snsd_nvme_connect create discover before ctx).1 ≡ success
      → Announced matches ctx (log ctx).1 (snsd_nvme_connect create discover before ctx).0.subsysnqn
  unfolding snsd_nvme_connect snsd_nvme_disc_get_subsysnqn
  nvme_connect-Announced ctx none_given =
      subst
        (λ nqn.
          (with_nqn create discover before ctx nqn).1 ≡ success
          → Announced matches ctx (log ctx).1 (with_nqn create discover before ctx nqn).0.subsysnqn)
        (sym none_given)
        (discovered-Announced ctx (log ctx).1 (discover ctx) (from_log-Announced ctx (log ctx)))
