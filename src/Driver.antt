-- ===== src/Driver.antt =====
-- The NVMe driver's view of the controllers, src/snsd_conn_nvme.c: finding the controller of a target,
-- and connecting to it.
pub mod Connected
pub mod Options
pub mod Fits
pub mod Address
pub mod Profile
pub mod Context
pub mod Disconnect
pub mod Create
pub mod Numbers
pub mod Created
pub mod Padded
use nvme_snsd.Base.{
  ℕ, Bool, true, false, not, ◌&&◌, ◌||◌, if◌then◌else◌, List, [], ◌∷◌, Option, none, some, take,
  Status, success, failure, efault, einval, ◌==◌, arith,
}
use nvme_snsd.Net.{Mode}
use nvme_snsd.Config.Text.{str_eq, starts_with}
use nvme_snsd.Config.Options.{codes}

-- `struct snsd_nvme_ctx`.
pub record NvmeCtx : Type 0 where
  pub transport : List ℕ
  pub trsvcid : List ℕ
  pub traddr : List ℕ
  pub host_traddr : List ℕ
  pub subsysnqn : List ℕ
  pub protocol : ℕ
  pub mode : Mode
  pub dname : List ℕ

-- `enum snsd_nvme_ctrl_state`.
pub data CtrlState : Type 0 where
  live fault not_exist unknown : CtrlState

-- A controller in the kernel's directory, with what `snsd_nvme_ctrl_profile` makes of its attributes and
-- the text of its state; none is an error. The name is shorter than SNSD_DEVICE_NAME_SIZE.
pub record Device : Type 0 where
  pub dname : List ℕ
  pub profile : Option NvmeCtx
  pub state : Option (List ℕ)

-- `snsd_nvme_ctrl_is_discovery`.
abbrev pub snsd_nvme_ctrl_is_discovery : NvmeCtx → Bool
snsd_nvme_ctrl_is_discovery ctx =
    str_eq ctx.subsysnqn (codes "nqn.2014-08.org.nvmexpress.discovery")

-- `snsd_nvme_ctrl_match`.
abbrev pub snsd_nvme_ctrl_match : NvmeCtx → NvmeCtx → Bool
snsd_nvme_ctrl_match a b =
    str_eq a.transport b.transport
    && (str_eq a.trsvcid b.trsvcid
        && (str_eq a.traddr b.traddr && str_eq a.host_traddr b.host_traddr))

-- `strstr` of the C library, as a test.
unfoldable pub strstr : List ℕ → List ℕ → Bool
unfolding starts_with
strstr [] needle = starts_with needle []
strstr (c ∷ cs) needle = starts_with needle (c ∷ cs) || strstr cs needle

-- `snsd_nvme_ctrl_read_state`.
abbrev pub snsd_nvme_ctrl_read_state : Option (List ℕ) → CtrlState
snsd_nvme_ctrl_read_state none = unknown
snsd_nvme_ctrl_read_state (some s) = if str_eq s (codes "live") then live else fault

-- A controller that is passed over.
abbrev pub passed_over : NvmeCtx → NvmeCtx → Bool
passed_over ctx n =
    snsd_nvme_ctrl_is_discovery n
    || (strstr n.subsysnqn (codes "null") || not (snsd_nvme_ctrl_match ctx n))

abbrev pub at_device : NvmeCtx → Device → Option NvmeCtx → CtrlState × List ℕ → CtrlState × List ℕ
at_device ctx d none rest = (unknown, [])
at_device ctx d (some n) rest =
    if passed_over ctx n then rest else (snsd_nvme_ctrl_read_state d.state, d.dname)

unfoldable pub find_device : NvmeCtx → List Device → CtrlState × List ℕ
unfolding strstr
find_device ctx [] = (not_exist, [])
find_device ctx (d ∷ ds) = at_device ctx d d.profile (find_device ctx ds)

-- `snsd_nvme_ctrl_find`, on the controllers that `scandir` gives: the state, and the name.
abbrev pub snsd_nvme_ctrl_find : NvmeCtx → Option (List Device) → CtrlState × List ℕ
snsd_nvme_ctrl_find ctx none = (unknown, [])
snsd_nvme_ctrl_find ctx (some ds) = find_device ctx ds

-- The end of `snsd_nvme_do_connect`, on what is found after the creation.
abbrev pub after_creation : NvmeCtx → Status → CtrlState × List ℕ → NvmeCtx × Status
after_creation ctx (failure e) found = (ctx, failure e)
after_creation ctx success (live, name) = (record ctx { dname = name }, success)
after_creation ctx success (fault, name) = (ctx, failure efault)
after_creation ctx success (not_exist, name) = (ctx, failure efault)
after_creation ctx success (unknown, name) = (ctx, failure efault)

-- `struct nvmf_disc_rsp_page_entry`, of the fields that are read, with the texts up to their end and
-- without the blanks that `snsd_nvme_disc_refurbish_log` takes off.
pub record LogEntry : Type 0 where
  pub trtype : ℕ
  pub adrfam : ℕ
  pub subtype : ℕ
  pub trsvcid : List ℕ
  pub traddr : List ℕ
  pub subnqn : List ℕ

-- `snsd_nvme_trtype_to_str`, with NVMF_TRTYPE_RDMA and NVMF_TRTYPE_TCP.
abbrev pub snsd_nvme_trtype_to_str : ℕ → List ℕ
snsd_nvme_trtype_to_str t =
    if t == 1 then codes "rdma" else (if t == 3 then codes "tcp" else codes "unsupport")

-- `same_ipv4` and `same_ipv6` are `snsd_ipv4_str_match` and `snsd_ipv6_str_match`, which compare what
-- `inet_pton` makes of two texts.
module _ (same_ipv4 same_ipv6 : List ℕ → List ℕ → Bool) where
  -- `snsd_nvme_disc_log_entry_match`, with NVME_NQN_NVME and the two families of addresses.
  abbrev pub snsd_nvme_disc_log_entry_match : NvmeCtx → LogEntry → Bool
  snsd_nvme_disc_log_entry_match ctx entry =
      ((entry.subtype == 2)
        && (str_eq (snsd_nvme_trtype_to_str entry.trtype) ctx.transport
            && str_eq entry.trsvcid ctx.trsvcid))
      && (((entry.adrfam == 1) && same_ipv4 entry.traddr ctx.traddr)
          || ((entry.adrfam == 2) && same_ipv6 entry.traddr ctx.traddr))

  unfoldable pub matching_entry : NvmeCtx → List LogEntry → Status × List ℕ
  matching_entry ctx [] = (failure einval, ctx.subsysnqn)
  matching_entry ctx (entry ∷ rest) =
      let found = matching_entry ctx rest in
      if snsd_nvme_disc_log_entry_match ctx entry then (success, take 255 entry.subnqn) else found

  abbrev pub from_log : NvmeCtx → Status × List LogEntry → Status × List ℕ
  from_log ctx (failure e, entries) = (failure e, ctx.subsysnqn)
  from_log ctx (success, entries) = matching_entry ctx entries

  -- `snsd_nvme_disc_get_subsysnqn`, on what `snsd_nvme_disc_get_log` gives: the status, and the name of
  -- the subsystem.
  unfoldable pub snsd_nvme_disc_get_subsysnqn :
      (NvmeCtx → Status × List LogEntry) → NvmeCtx → Status × List ℕ
  unfolding matching_entry
  snsd_nvme_disc_get_subsysnqn log ctx = from_log ctx (log ctx)

-- `create` is the write of the options to the kernel's device, in `snsd_nvme_create`, with the controllers
-- after it, and `discover` stands for `snsd_nvme_disc_get_subsysnqn` with the name that it finds.
module _ (create : NvmeCtx → Status × Option (List Device)) (discover : NvmeCtx → Status × List ℕ)
    (before : Option (List Device)) where
  -- `snsd_nvme_do_connect`.
  abbrev pub snsd_nvme_do_connect : NvmeCtx → NvmeCtx × Status
  snsd_nvme_do_connect ctx =
      after_creation ctx (create ctx).0 (snsd_nvme_ctrl_find ctx (create ctx).1)

  abbrev pub by_state : NvmeCtx → CtrlState × List ℕ → NvmeCtx × Status
  by_state ctx (live, name) = (record ctx { dname = name }, success)
  by_state ctx (not_exist, name) = snsd_nvme_do_connect ctx
  by_state ctx (fault, name) = (ctx, failure efault)
  by_state ctx (unknown, name) = (ctx, failure efault)

  abbrev pub connect_named : NvmeCtx → NvmeCtx × Status
  connect_named ctx = by_state ctx (snsd_nvme_ctrl_find ctx before)

  abbrev pub discovered : NvmeCtx → Status × List ℕ → NvmeCtx × Status
  discovered ctx (failure e, nqn) = (ctx, failure e)
  discovered ctx (success, nqn) = connect_named (record ctx { subsysnqn = nqn })

  abbrev pub with_nqn : NvmeCtx → List ℕ → NvmeCtx × Status
  with_nqn ctx [] = discovered ctx (discover ctx)
  with_nqn ctx (c ∷ cs) = connect_named ctx

  -- `snsd_nvme_connect`.
  unfoldable pub snsd_nvme_connect : NvmeCtx → NvmeCtx × Status
  unfolding find_device
  snsd_nvme_connect ctx = with_nqn ctx ctx.subsysnqn
