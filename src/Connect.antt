-- ===== src/Connect.antt =====
-- src/snsd_connect.c: the table of the protocols' templates, and the three entries through which the
-- rest of the program adds tasks. The tasks go to the workers of src/snsd_conn_peon.c: `call` stands
-- here for the additions made, in their order, and the result of each is an argument.
use nvme_snsd.Base.{
  ℕ, suc, ◌≡◌, refl, Bool, true, false, ltb, if◌then◌else◌, List, [], ◌∷◌, Option, none, some,
  replicate, length, get_elem?, set, arith, Status, success, failure, einval, take,
}
use nvme_snsd.Net.{ConnectParam, sw}

-- Which worker an addition goes to: `peon_add_connect_task`, `peon_add_disconn_task`,
-- `peon_add_dcbatch_task`.
pub data Added : Type 0 where
  connect_task disconn_task dcbatch_task : ConnectParam → Added

-- `SNSD_PROTOCOL_BUTT` templates; a NULL one is `false`.
abbrev pub Templates : Type 0
Templates = List Bool

-- `snsd_connect_template_register`.
unfoldable pub snsd_connect_template_register : ℕ → Templates → Templates
snsd_connect_template_register protocol ts =
    if ltb protocol (length ts) then set ts protocol true else ts

abbrev pub registered : Option Bool → Bool
registered none = false
registered (some t) = t

-- `snsd_connect` and `snsd_disconnect`, with the answer of the worker.
unfoldable pub snsd_connect :
    (ConnectParam → Status) → Templates → ConnectParam → List Added × Status
snsd_connect worker ts param =
    if registered (get_elem? ts param.protocol)
    then (connect_task param ∷ [], worker param)
    else ([], failure einval)

unfoldable pub snsd_disconnect :
    (ConnectParam → Status) → Templates → ConnectParam → List Added × Status
snsd_disconnect worker ts param =
    if registered (get_elem? ts param.protocol)
    then (disconn_task param ∷ [], worker param)
    else ([], failure einval)

module _ (worker : ConnectParam → Status) (ts : Templates) (param : ConnectParam) where
  pub connect-success :
      worker param ≡ success
      → registered (get_elem? ts param.protocol) ≡ true
      → snsd_connect worker ts param ≡ (connect_task param ∷ [], success)
  unfolding snsd_connect
  connect-success h reg = ground arith

  pub disconnect-success :
      worker param ≡ success
      → registered (get_elem? ts param.protocol) ≡ true
      → snsd_disconnect worker ts param ≡ (disconn_task param ∷ [], success)
  unfolding snsd_disconnect
  disconnect-success h reg = ground arith

-- The parameters of `snsd_disconnect_by_host_traddr`.
unfoldable pub host_param : ℕ → List ℕ → ℕ → ConnectParam
host_param family host_traddr protocol = record {
  protocol = protocol;
  portid = 0;
  family = family;
  traddr = replicate 16 0;
  host_traddr = take 16 host_traddr;
  subsysnqn = replicate 256 0;
  mode = sw;
  action_flag = 0;
}

-- The loop over the protocols from `protocol` on.
abbrev after : Status → Added → List Added × Status → List Added × Status
after (failure e) a rest = (a ∷ [], failure e)
after success a (added, result) = (a ∷ added, result)

unfoldable pub by_host_from :
    (ConnectParam → Status) → (ℕ → ConnectParam) → Templates → ℕ → List Added × Status
by_host_from worker param [] protocol = ([], success)
by_host_from worker param (false ∷ ts) protocol = by_host_from worker param ts (suc protocol)
by_host_from worker param (true ∷ ts) protocol =
    after (worker (param protocol)) (dcbatch_task (param protocol))
      (by_host_from worker param ts (suc protocol))

unfoldable pub snsd_disconnect_by_host_traddr :
    (ConnectParam → Status) → Templates → ℕ → List ℕ → List Added × Status
unfolding by_host_from
snsd_disconnect_by_host_traddr worker ts family host_traddr =
    by_host_from worker (host_param family host_traddr) ts 0

-- The protocols that have a template, from `protocol` on.
unfoldable pub protocols_from : Templates → ℕ → List ℕ
protocols_from [] protocol = []
protocols_from (false ∷ ts) protocol = protocols_from ts (suc protocol)
protocols_from (true ∷ ts) protocol = protocol ∷ protocols_from ts (suc protocol)

abbrev pub batch : (ℕ → ConnectParam) → List ℕ → List Added
batch param [] = []
batch param (p ∷ ps) = dcbatch_task (param p) ∷ batch param ps

by_host_from-covers :
    (worker : ConnectParam → Status) (param : ℕ → ConnectParam) (ts : Templates) (protocol : ℕ)
    → (by_host_from worker param ts protocol).1 ≡ success
    → (by_host_from worker param ts protocol).0 ≡ batch param (protocols_from ts protocol)
unfolding by_host_from protocols_from
by_host_from-covers worker param [] protocol h = refl
by_host_from-covers worker param (false ∷ ts) protocol h =
    by_host_from-covers worker param ts (suc protocol) h
by_host_from-covers worker param (true ∷ ts) protocol h =
    ground (arith, by_host_from-covers worker param ts (suc protocol))

-- When a batch disconnection by host address succeeds, it has added one task for each registered
-- protocol, in their order, and no other.
disconnect_by_host_traddr-covers :
    (worker : ConnectParam → Status) (ts : Templates) (family : ℕ) (host_traddr : List ℕ)
    → (snsd_disconnect_by_host_traddr worker ts family host_traddr).1 ≡ success
    → (snsd_disconnect_by_host_traddr worker ts family host_traddr).0
      ≡ batch (host_param family host_traddr) (protocols_from ts 0)
unfolding snsd_disconnect_by_host_traddr
disconnect_by_host_traddr-covers worker ts family host_traddr h =
    by_host_from-covers worker (host_param family host_traddr) ts 0 h

by_host_from-success :
    (worker : ConnectParam → Status) (param : ℕ → ConnectParam) (ts : Templates) (protocol : ℕ)
    → ((p : ConnectParam) → worker p ≡ success)
    → (by_host_from worker param ts protocol).1 ≡ success
unfolding by_host_from
by_host_from-success worker param [] protocol accepts = refl
by_host_from-success worker param (false ∷ ts) protocol accepts =
    by_host_from-success worker param ts (suc protocol) accepts
by_host_from-success worker param (true ∷ ts) protocol accepts =
    ground
      (arith, accepts (param protocol), by_host_from-success worker param ts (suc protocol) accepts)

pub disconnect_by_host_traddr-success :
    (worker : ConnectParam → Status) (ts : Templates) (family : ℕ) (host_traddr : List ℕ)
    → ((p : ConnectParam) → worker p ≡ success)
    → (snsd_disconnect_by_host_traddr worker ts family host_traddr).1 ≡ success
unfolding snsd_disconnect_by_host_traddr
disconnect_by_host_traddr-success worker ts family host_traddr accepts =
    by_host_from-success worker (host_param family host_traddr) ts 0 accepts
