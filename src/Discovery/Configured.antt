-- ===== src/Discovery/Configured.antt =====
-- The ports that `snsd_cfg_net_info` leaves are configured, and those of the poll can be used.
use nvme_snsd.Base.{
  ℕ, ◌<◌, ◌≡◌, refl, sym, subst, ◌∙◌, ◌⊎◌, inl, inr, Bool, true, ◌&&◌, ◌==◌, ==_iff, if_cases, List,
  [], ◌∷◌, Option, none, some, pos, arith, All, Holds,
}
use nvme_snsd.Net.{Mode, sw, dc, mem_eq}
use nvme_snsd.Config.Items.{CfgInfos, host_traddr_of, traddr_of, same_int}
use nvme_snsd.Discovery.Ports.{
  NetPort, snsd_fill_net_info, if_same, with_target, with_host, is_sw, snsd_check_and_fill,
  find_cfg, snsd_dealwith_cfg, protocol_handle, with_protocol, handled, snsd_protocol_handle,
  snsd_cfg_net_info,
}

module _ (inet_pton : List ℕ → Option (List ℕ)) (any : Bool) (mode : Mode) where
  -- A network is configured for any address, or for this one.
  abbrev pub Suits : List ℕ → CfgInfos → Type 0
  Suits ip c =
      (any && is_sw mode ≡ true)
      ⊎ ((address : List ℕ) × (inet_pton (host_traddr_of c) ≡ some address)
          × (mem_eq 4 ip address ≡ true))

  -- One of the networks suits.
  abbrev pub Configured : List CfgInfos → List ℕ → Type 0
  Configured [] ip = ⊥
  Configured (c ∷ cs) ip = Suits ip c ⊎ Configured cs ip

  -- What filling a port comes to: the address stays, and a port that is found suits.
  abbrev FillOk : List ℕ → CfgInfos → NetPort × Bool → Type 0
  FillOk ip c r = (r.0.ip ≡ ip) × (r.1 ≡ true → Suits ip c)

  if_same-FillOk :
      (p : NetPort) (c : CfgInfos) (address : List ℕ)
      → inet_pton (host_traddr_of c) ≡ some address
      → FillOk p.ip c (if_same p c address)
  unfolding snsd_fill_net_info
  if_same-FillOk p c address e =
      if_cases (FillOk p.ip c) (mem_eq 4 p.ip address) (λ same. (refl, λ _. inr (address, e, same)))
        λ _. (refl, λ f. absurd cc)

  with_target-FillOk :
      (m : Mode) (p : NetPort) (c : CfgInfos) (address : List ℕ) (target : Option (List ℕ))
      → inet_pton (host_traddr_of c) ≡ some address
      → FillOk p.ip c (with_target inet_pton any m p c address target)
  with_target-FillOk sw p c address target e = if_same-FillOk p c address e
  with_target-FillOk dc p c address none e = (refl, λ f. absurd cc)
  with_target-FillOk dc p c address (some tgtip) e =
      if_same-FillOk (record p { tgtip = tgtip }) c address e

  with_host-FillOk :
      (p : NetPort) (c : CfgInfos) (host : Option (List ℕ))
      → inet_pton (host_traddr_of c) ≡ host
      → FillOk p.ip c (with_host inet_pton any mode p c host)
  with_host-FillOk p c none e = (refl, λ f. absurd cc)
  with_host-FillOk p c (some address) e =
      with_target-FillOk mode p c address (inet_pton (traddr_of c)) e

  check-FillOk :
      (p : NetPort) (c : CfgInfos) → FillOk p.ip c (snsd_check_and_fill inet_pton any mode p c)
  unfolding snsd_check_and_fill snsd_fill_net_info
  check-FillOk p c =
      if_cases (FillOk p.ip c) (any && is_sw mode) (λ e. (refl, λ _. inl e))
        λ _. with_host-FillOk p c (inet_pton (host_traddr_of c)) refl

  abbrev FindOk : List CfgInfos → List ℕ → NetPort × Bool → Type 0
  FindOk cs ip r = (r.0.ip ≡ ip) × (r.1 ≡ true → Configured cs ip)

  find-FindOk :
      (cs : List CfgInfos) (p : NetPort) → FindOk cs p.ip (find_cfg inet_pton any mode cs p)
  unfolding find_cfg
  find-FindOk [] p = (refl, λ f. absurd cc)
  find-FindOk (c ∷ cs) p =
      let r = snsd_check_and_fill inet_pton any mode p c in
      let ok = check-FillOk p c in
      let rest = find-FindOk cs r.0 in
      if_cases (FindOk (c ∷ cs) p.ip) r.1 (λ e. (ok.0, λ _. inl (ok.1 e)))
        λ _. (rest.0 ∙ ok.0, λ e. inr (subst (Configured cs) ok.0 (rest.1 e)))

  abbrev AllConfigured : List CfgInfos → List NetPort → Type 0
  AllConfigured cs = All (λ (p : NetPort). Configured cs p.ip)

  dealwith-AllConfigured :
      (cs : List CfgInfos) (ps : List NetPort)
      → AllConfigured cs (snsd_dealwith_cfg inet_pton any mode cs ps)
  unfolding snsd_dealwith_cfg
  dealwith-AllConfigured cs [] = tt
  dealwith-AllConfigured cs (p ∷ ps) =
      let r = find_cfg inet_pton any mode cs p in
      let ok = find-FindOk cs p in
      if_cases (AllConfigured cs) r.1
        (λ e. (subst (Configured cs) (sym ok.0) (ok.1 e), dealwith-AllConfigured cs ps))
        λ _. dealwith-AllConfigured cs ps

  -- A port of the poll speaks RoCE, and its device has passed the check.
  abbrev pub Usable : (ℕ → Bool) → ℕ → NetPort → Type 0
  Usable ib count p = p.count ≡ count → (same_int p.protocol (pos 1) ≡ true) × (ib p.device ≡ true)

  abbrev pub AllLeft : (ℕ → Bool) → ℕ → List CfgInfos → List NetPort → Type 0
  AllLeft ib count cs = All (λ (p : NetPort). Configured cs p.ip × Usable ib count p)

  checked :
      (ib : ℕ → Bool) (p : NetPort)
      → protocol_handle ib p ≡ true
      → (same_int p.protocol (pos 1) ≡ true) × (ib p.device ≡ true)
  unfolding protocol_handle
  checked ib p h = ground arith

  handled-AllLeft :
      (ib : ℕ → Bool) (count : ℕ) (cs : List CfgInfos) (p : NetPort) (rest : List NetPort)
      → count < 4294967296
      → p.count ≡ count
      → Configured cs p.ip
      → AllLeft ib count cs rest
      → AllLeft ib count cs (handled ib p rest)
  handled-AllLeft ib count cs p rest small now ok h =
      if_cases (AllLeft ib count cs) (protocol_handle ib p) (λ e. ((ok, λ _. checked ib p e), h))
        λ _.
          if_cases (AllLeft ib count cs) p.is_new (λ _. h)
            λ _. ((ok, λ e. absurd (omega (arith, e, now))), h)

  protocol_same :
      (p : NetPort) → ((with_protocol p).ip ≡ p.ip) × ((with_protocol p).count ≡ p.count)
  protocol_same p = (ground arith, ground arith)

  protocol_handle-AllLeft :
      (ib : ℕ → Bool) (count : ℕ) (cs : List CfgInfos) (ps : List NetPort)
      → count < 4294967296
      → AllConfigured cs ps
      → AllLeft ib count cs (snsd_protocol_handle ib count ps)
  unfolding snsd_protocol_handle
  protocol_handle-AllLeft ib count cs [] small h = tt
  protocol_handle-AllLeft ib count cs (p ∷ ps) small h =
      let rest = protocol_handle-AllLeft ib count cs ps small h.1 in
      let same = protocol_same p in
      if_cases (AllLeft ib count cs) (p.count == count)
        (λ e.
          handled-AllLeft ib count cs (with_protocol p) _ small
            (same.1 ∙ (==_iff p.count count).0 e) (subst (Configured cs) (sym same.0) h.0) rest)
        λ e. ((h.0, λ f. absurd (ground arith)), rest)

-- Where something is configured and the kernel's ports are there, the ports that are left are configured,
-- by an address that the configuration's text stands for or for any address, and those of this poll
-- speak RoCE on a device that has passed the check.
pub cfg_net_info-AllLeft :
    (inet_pton : List ℕ → Option (List ℕ)) (any : Bool) (ib : ℕ → Bool) (mode : Mode) (c : CfgInfos)
    (cs : List CfgInfos) (count : ℕ) (ps : List NetPort)
    → count < 4294967296
    → Holds
        (AllLeft inet_pton any mode ib count (c ∷ cs))
        (snsd_cfg_net_info inet_pton any ib mode (c ∷ cs) count (some ps))
unfolding snsd_cfg_net_info
cfg_net_info-AllLeft inet_pton any ib mode c cs count ps small =
    protocol_handle-AllLeft inet_pton any mode ib count (c ∷ cs) _ small
      (dealwith-AllConfigured inet_pton any mode (c ∷ cs) ps)
