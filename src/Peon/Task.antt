-- ===== src/Peon/Task.antt =====
-- src/snsd_conn_peon.h, src/snsd_connect.h: tasks, peons and the state that the workers share.
use nvme_snsd.Base.{
  ◌≡◌, ◌≢◌, sym, subst, if_pos, if_neg, ℕ, ◌+◌, Bool, true, false, ◌||◌, not, ◌==◌, ltb, leb,
  if◌then◌else◌, List, Option, u64, ite, Status, ℤ,
}
use nvme_snsd.Net.{ConnectParam, snsd_ip_match}

-- `struct snsd_conn_toolbox`: function pointers of the protocol driver, which may be NULL. A context
-- is its address. What a call finds outside the program enters by its first argument.
pub record Toolbox : Type 0 where
  pub ctx_init : Option (ℕ → ConnectParam → ℕ → Option ℕ)
  pub handle : Option (ℕ → Option ℕ → ℕ → ℕ → Status)
  pub recheck : Option (ℕ → Option ℕ → Status)

-- `enum peon_task_state`.
pub data TaskState : Type 0 where
  live dead : TaskState

-- `struct peon_task`, less its list node.
pub record Task : Type 0 where
  pub tm : ℕ
  pub next_run : ℕ
  pub sn : ℕ
  pub state : TaskState
  pub toolbox : Toolbox
  pub ctx : Option ℕ
  pub param : ConnectParam

-- The entries of the array `peons`, and the private peon of one dynamic disconnect worker.
pub data PeonId : Type 0 where
  connect disconn dcbatch recheck dynamic : PeonId

-- `pe->type`: a dynamic peon has the type of a disconnect peon.
pub data PeonType : Type 0 where
  type_connect type_disconn type_dcbatch type_recheck : PeonType

unfoldable pub PeonId-discrete : Discrete PeonId
PeonId-discrete = hlevel

-- `struct peon`.
pub record Peon : Type 0 where
  pub type : PeonType
  pub wait_list : List Task
  pub proc_list : List Task
  pub restrain_time : ℕ
  pub normal_period : ℕ
  pub fast_period : ℕ
  pub worker_num : ℕ
  pub worker_all_count : ℤ

-- The static data of snsd_conn_peon.c.
pub record System : Type 0 where
  pub peons : PeonId → Peon
  pub task_sn : ℕ
  pub dyn_worker_num : ℕ

-- `peons[r] = pe`.
unfoldable pub store : PeonId → Peon → (PeonId → Peon) → PeonId → Peon
store r pe peons q = ite (PeonId-discrete r q) pe (peons q)

unfoldable pub put : System → PeonId → Peon → System
put s r pe = record s { peons = store r pe s.peons }

-- `peon_sn_generate`: the next serial number, which is never 0.
unfoldable pub peon_sn_generate : System → System × ℕ
peon_sn_generate s =
    let sn = u64 (s.task_sn + 1) in
    if sn == 0
    then (record s { task_sn = u64 (sn + 1) }, u64 (sn + 1))
    else (record s { task_sn = sn }, sn)

-- `peon_task_match`.
unfoldable pub peon_task_match : Task → Task → Bool → Bool
peon_task_match t1 t2 isbatch =
    if not (p1.protocol == p2.protocol)
      || (not (p1.family == p2.family)
          || not (snsd_ip_match p1.family p1.host_traddr p2.host_traddr))
    then false
    else if isbatch
    then true
    else if not (p1.portid == p2.portid) || not (snsd_ip_match p1.family p1.traddr p2.traddr)
    then false
    else true
  where
    p1 : ConnectParam
    p1 = t1.param

    p2 : ConnectParam
    p2 = t2.param

-- `peon_task_restrain_timeout`, at the time `now`.
unfoldable pub peon_task_restrain_timeout : ℕ → Task → ℕ → Bool
peon_task_restrain_timeout now task restrain_time =
    if (restrain_time == 0) || (ltb now task.tm || leb (task.tm + restrain_time) now)
    then leb task.next_run now
    else false

module _ (s : System) {r q : PeonId} (pe : Peon) where
  pub put_hit : r ≡ q → (put s r pe).peons q ≡ pe
  unfolding put store
  put_hit e = if_pos _ e pe (s.peons q)

  pub put_miss : r ≢ q → (put s r pe).peons q ≡ s.peons q
  unfolding put store
  put_miss n = if_neg _ n pe (s.peons q)

-- A property of the peon at `q` after a store at `r`.
pub put_cases {κ} :
    (P : Peon → Type κ) (s : System) (r q : PeonId) (pe : Peon)
    → (r ≡ q → P pe)
    → (r ≢ q → P (s.peons q))
    → P ((put s r pe).peons q)
put_cases P s r q pe hit miss = elim (PeonId-discrete r q) [
  | yes e ↦ subst P (sym (put_hit s pe e)) (hit e)
  | no n ↦ subst P (sym (put_miss s pe n)) (miss n)
]
