-- ===== src/Driver/Context.antt =====
-- The contexts of the NVMe driver's tasks, and the disconnection of one target and of all the targets of a
-- host's address, src/snsd_conn_nvme.c. `inet_ntop`, `inet_pton` and `strtoul` are the C library's: the
-- last gives the number and what stands behind it.
use nvme_snsd.Base.{
  ℕ, zero, suc, Bool, true, false, not, ◌&&◌, ◌||◌, ◌==◌, if◌then◌else◌, List, [], ◌∷◌, Option,
  none, some, ◌>>=◌, u16, Status, success, failure, enoent,
}
use nvme_snsd.Net.{ConnectParam, sw, af_inet, af_inet6}
use nvme_snsd.Config.Text.{str_eq}
use nvme_snsd.Config.Options.{codes}
use nvme_snsd.Driver.{
  NvmeCtx, CtrlState, live, fault, not_exist, unknown, Device, snsd_nvme_ctrl_is_discovery,
  snsd_nvme_ctrl_find, find_device,
}
use nvme_snsd.Driver.Options.{decimal}

-- `snsd_nvme_transport`.
abbrev pub snsd_nvme_transport : ℕ → List ℕ
snsd_nvme_transport protocol =
    if protocol == 1 then codes "rdma" else if protocol == 2 then codes "tcp" else codes "---"

-- A context of zeros, from `calloc`.
abbrev pub empty_ctx : NvmeCtx
empty_ctx = record {
  transport = [];
  trsvcid = [];
  traddr = [];
  host_traddr = [];
  subsysnqn = [];
  protocol = 0;
  mode = sw;
  dname = [];
}

-- The port of RoCE is 4420 where none is given.
abbrev pub port_or_default : ℕ → ℕ → ℕ
port_or_default protocol portid = if (protocol == 1) && (portid == 0) then 4420 else portid

abbrev pub with_addresses : ConnectParam → NvmeCtx → List ℕ → List ℕ → NvmeCtx
with_addresses param ctx traddr host_traddr = record ctx {
  transport = snsd_nvme_transport param.protocol;
  trsvcid = decimal (port_or_default param.protocol param.portid);
  traddr = traddr;
  host_traddr = host_traddr;
  protocol = param.protocol;
  mode = param.mode;
}

module _ (inet_ntop : ℕ → List ℕ → Option (List ℕ)) where
  -- `snsd_nvme_ctx_nessary_init`.
  abbrev pub snsd_nvme_ctx_nessary_init : ConnectParam → NvmeCtx → Option NvmeCtx
  snsd_nvme_ctx_nessary_init param ctx =
      if not ((param.protocol == 1) || (param.protocol == 2))
      then none
      else if (param.protocol == 2) && (param.portid == 0)
      then none
      else do
        traddr ← inet_ntop param.family param.traddr
        host_traddr ← inet_ntop param.family param.host_traddr
        some (with_addresses param ctx traddr host_traddr)

  -- `snsd_nvme_conn_ctx_init` and `snsd_nvme_dis_ctx_init`, where there is memory.
  unfoldable pub snsd_nvme_conn_ctx_init : ConnectParam → Option NvmeCtx
  snsd_nvme_conn_ctx_init param = snsd_nvme_ctx_nessary_init param empty_ctx

  unfoldable pub snsd_nvme_dis_ctx_init : ConnectParam → Option NvmeCtx
  snsd_nvme_dis_ctx_init param = snsd_nvme_ctx_nessary_init param empty_ctx

  -- `snsd_nvme_ctx_init_batch`.
  unfoldable pub snsd_nvme_ctx_init_batch : ConnectParam → Option NvmeCtx
  snsd_nvme_ctx_init_batch param = do
    host_traddr ← inet_ntop param.family param.host_traddr
    some (record empty_ctx {
      transport = snsd_nvme_transport param.protocol;
      host_traddr = host_traddr;
    })

-- `snsd_nvme_ctx_reinit`.
unfoldable pub snsd_nvme_ctx_reinit : NvmeCtx → NvmeCtx
snsd_nvme_ctx_reinit ctx = record ctx { dname = [] }

-- `snsd_nvme_recheck`; `exists` is `access` of a controller's directory.
unfoldable pub snsd_nvme_recheck : (List ℕ → Bool) → NvmeCtx → Status
snsd_nvme_recheck exists ctx = if exists ctx.dname then success else failure enoent

-- `snsd_nvme_ctrl_match_batch`.
abbrev pub snsd_nvme_ctrl_match_batch : NvmeCtx → NvmeCtx → Bool
snsd_nvme_ctrl_match_batch a b =
    str_eq a.transport b.transport && str_eq a.host_traddr b.host_traddr

abbrev pub protocol_named : List ℕ → Option ℕ
protocol_named transport =
    if str_eq transport (codes "rdma")
    then some 1
    else if str_eq transport (codes "tcp")
    then some 2
    else none

-- `strchr(s, '.')`, as a test.
unfoldable pub has_dot : List ℕ → Bool
has_dot [] = false
has_dot (c ∷ cs) = (c == b'.') || has_dot cs

abbrev pub family_of : List ℕ → ℕ
family_of host_traddr = if has_dot host_traddr then af_inet else af_inet6

-- A number with nothing behind it, as an `unsigned short`.
abbrev pub port_read : ℕ × List ℕ → Option ℕ
port_read (n, []) = some (u16 n)
port_read (n, c ∷ cs) = none

module _ (inet_pton : ℕ → List ℕ → Option (List ℕ)) (strtoul : List ℕ → ℕ × List ℕ) where
  -- `snsd_nvme_add_disconnect`: the parameters of the task that it adds, or none.
  unfoldable pub snsd_nvme_add_disconnect : NvmeCtx → Option ConnectParam
  unfolding has_dot
  snsd_nvme_add_disconnect ctx = do
    protocol ← protocol_named ctx.transport
    portid ← port_read (strtoul ctx.trsvcid)
    traddr ← inet_pton (family_of ctx.host_traddr) ctx.traddr
    host_traddr ← inet_pton (family_of ctx.host_traddr) ctx.host_traddr
    some (record {
      protocol = protocol;
      portid = portid;
      family = family_of ctx.host_traddr;
      traddr = traddr;
      host_traddr = host_traddr;
      subsysnqn = ctx.subsysnqn;
      mode = sw;
      action_flag = 0;
    })

  abbrev pub cons_task : Option ConnectParam → List ConnectParam → List ConnectParam
  cons_task none rest = rest
  cons_task (some p) rest = p ∷ rest

  -- One controller of `snsd_nvme_disconnect_batch`, before the rest of them.
  abbrev pub batch_device : NvmeCtx → Option NvmeCtx → List ConnectParam → List ConnectParam
  batch_device ctx none rest = rest
  batch_device ctx (some n) rest =
      if snsd_nvme_ctrl_is_discovery n || not (snsd_nvme_ctrl_match_batch ctx n)
      then rest
      else cons_task (snsd_nvme_add_disconnect n) rest

  unfoldable pub batch_devices : NvmeCtx → List Device → List ConnectParam
  batch_devices ctx [] = []
  batch_devices ctx (d ∷ ds) = batch_device ctx d.profile (batch_devices ctx ds)

  -- `snsd_nvme_disconnect_batch`: the tasks that it adds.
  abbrev pub snsd_nvme_disconnect_batch : NvmeCtx → Option (List Device) → List ConnectParam
  snsd_nvme_disconnect_batch ctx none = []
  snsd_nvme_disconnect_batch ctx (some ds) = batch_devices ctx ds

-- What a disconnection does to a controller.
pub data Command : Type 0 where
  keep_alive remove : List ℕ → Command

-- `snsd_nvme_retry_keep_alive`: the commands sent. `results` is whether each gives an error.
unfoldable pub snsd_nvme_retry_keep_alive : ℕ → (ℕ → Bool) → List ℕ → ℕ → List Command
snsd_nvme_retry_keep_alive zero results name index = []
snsd_nvme_retry_keep_alive (suc n) results name index =
    let rest = snsd_nvme_retry_keep_alive n results name (suc index) in
    keep_alive name ∷ (if results index then [] else rest)

abbrev pub is_live : CtrlState → Bool
is_live live = true
is_live fault = false
is_live not_exist = false
is_live unknown = false

-- What `snsd_nvme_disconnect` meets: the controllers before and after the first command, whether that one
-- gives an error, and whether each further one does.
pub record Meeting : Type 0 where
  pub before : Option (List Device)
  pub afterwards : Option (List Device)
  pub first_fails : Bool
  pub results : ℕ → Bool

abbrev pub after_keep_alive : Bool → Meeting → NvmeCtx → List ℕ → List Command
after_keep_alive forced m ctx name =
    if forced && is_live (snsd_nvme_ctrl_find ctx m.afterwards).0
    then remove name ∷ []
    else if not m.first_fails
    then snsd_nvme_retry_keep_alive 100 m.results name 0
    else []

abbrev pub on_found : Bool → Meeting → NvmeCtx → CtrlState × List ℕ → List Command
on_found forced m ctx (live, name) = keep_alive name ∷ after_keep_alive forced m ctx name
on_found forced m ctx (fault, name) = []
on_found forced m ctx (not_exist, name) = []
on_found forced m ctx (unknown, name) = []

-- `snsd_nvme_disconnect`, which always succeeds; `forced` is SNSD_DISCONNECT_FORCEDLY.
unfoldable pub snsd_nvme_disconnect : Bool → Meeting → NvmeCtx → List Command
unfolding snsd_nvme_retry_keep_alive find_device
snsd_nvme_disconnect forced m ctx = on_found forced m ctx (snsd_nvme_ctrl_find ctx m.before)
