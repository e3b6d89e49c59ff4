-- ===== src/Peon/Work.antt =====
-- Adding, fetching, completing and rechecking tasks: `peon_task_add`, `peon_task_get`,
-- `peon_task_complete`, `peon_task_proc`, `peon_run_recheck` and the dynamic disconnect worker.
-- `now` is what `times_sec()` returns, and `w` stands for the world outside that a driver's call sees.
use nvme_snsd.Base.{
  ℕ, zero, suc, ◌+◌, ◌-◌, Bool, true, false, ◌&&◌, ◌==◌, leb, if◌then◌else◌, List, [], ◌∷◌, ◌++◌,
  Option, none, some, Status, success, failure, enomem, einval, is_success, incr, decr, at_least,
  pos, length, get_elem?, remove_at, u32,
}
use nvme_snsd.Net.{ConnectParam}
use nvme_snsd.Peon.Task.{
  Toolbox, Task, live, PeonId, PeonType, connect, disconn, recheck, dynamic, type_connect,
  type_disconn, type_dcbatch, type_recheck, Peon, System, put, peon_sn_generate,
  peon_task_restrain_timeout,
}
use nvme_snsd.Peon.Scan.{is_dead, peon_task_action_judge}

-- `PEON_DYN_DISCONN_WORKER_LIMIT`, `PEON_FAIL_RETRY_INTERVAL`, `PEON_DEFAULT_RESTRAIN_TIME`.
abbrev pub peon_dyn_disconn_worker_limit : ℕ
peon_dyn_disconn_worker_limit = 512

abbrev pub peon_fail_retry_interval : ℕ
peon_fail_retry_interval = 60

abbrev pub peon_default_restrain_time : ℕ
peon_default_restrain_time = 3

-- `pe->worker_all_count++` and `--`.
abbrev pub count_up : Peon → Peon
count_up pe = record pe { worker_all_count = incr pe.worker_all_count }

abbrev pub count_down : Peon → Peon
count_down pe = record pe { worker_all_count = decr pe.worker_all_count }

-- `list_add_tail(&task->node, &pe->wait_list)`.
abbrev pub enqueue : Peon → Task → Peon
enqueue pe t = record pe { wait_list = pe.wait_list ++ t ∷ [] }

-- `list_del(&task->node)`, for the i-th task of the list of waiting tasks.
abbrev pub unlink : Peon → ℕ → Peon
unlink pe i = record pe { wait_list = remove_at pe.wait_list i }

abbrev pub is_disconn : PeonType → Bool
is_disconn type_disconn = true
is_disconn type_connect = false
is_disconn type_dcbatch = false
is_disconn type_recheck = false

-- What the calls that `peon_task_add` makes come to: whether `calloc` gives memory, whether the thread
-- of a dynamic peon starts, and the configured restrain time.
pub record AddEnv : Type 0 where
  pub w : ℕ
  pub now : ℕ
  pub alloc_ok : Bool
  pub dyn_ok : Bool
  pub cfg_restrain_time : ℕ

-- `peon_dyn_create`, where the construction succeeds: a peon with this one task.
unfoldable pub peon_dyn_create : AddEnv → Task → Peon
peon_dyn_create e t = record {
  type = type_disconn;
  wait_list = t ∷ [];
  proc_list = [];
  restrain_time = e.cfg_restrain_time;
  normal_period = 10;
  fast_period = 1;
  worker_num = 1;
  worker_all_count = pos 1;
}

-- The end of `peon_task_add`, under the lock. The third part is the new dynamic peon.
unfoldable pub place_task : AddEnv → System → PeonId → Task → System × Status × Option Peon
unfolding put peon_dyn_create
place_task e s r t =
    if is_disconn (s.peons r).type
      && (at_least (s.peons r).worker_all_count (s.peons r).worker_num
          && (leb s.dyn_worker_num peon_dyn_disconn_worker_limit && e.dyn_ok))
    then (record s { dyn_worker_num = s.dyn_worker_num + 1 }, success, some (peon_dyn_create e t))
    else (put s r (count_up (enqueue (s.peons r) t)), success, none)

abbrev pub new_task : AddEnv → ℕ → ConnectParam → Toolbox → Option ℕ → Task
new_task e sn param toolbox ctx = record {
  tm = e.now;
  next_run = 0;
  sn = sn;
  state = live;
  toolbox = toolbox;
  ctx = ctx;
  param = param;
}

-- `toolbox->ctx_init`, where there is one: its context, or `-EINVAL`.
abbrev pub init_ctx : AddEnv → ℕ → ConnectParam → Toolbox → Option (Option ℕ)
init_ctx e sn param toolbox = elim toolbox.ctx_init [
  | none ↦ some none
  | some f ↦ elim (f e.w param sn) [ none ↦ none | some ctx ↦ some (some ctx) ]
]

-- `peon_task_add` once the context is there, or has failed.
unfoldable pub add_with_ctx :
    AddEnv
    → System
    → PeonId
    → ℕ
    → ConnectParam
    → Toolbox
    → Option (Option ℕ)
    → System × Status × Option Peon
unfolding place_task
add_with_ctx e s r sn param toolbox none = (s, failure einval, none)
add_with_ctx e s r sn param toolbox (some ctx) = place_task e s r (new_task e sn param toolbox ctx)

-- `peon_task_add`.
unfoldable pub peon_task_add :
    AddEnv → System → PeonId → ℕ → ConnectParam → Toolbox → System × Status × Option Peon
unfolding add_with_ctx
peon_task_add e s r sn param toolbox =
    if e.alloc_ok
    then add_with_ctx e s r sn param toolbox (init_ctx e sn param toolbox)
    else (s, failure enomem, none)

-- `peon_add_task_inner`: `peon_add_connect_task`, `peon_add_disconn_task` and
-- `peon_add_dcbatch_task` are its calls at the three peons.
unfoldable pub peon_add_task_inner :
    AddEnv → System → PeonId → ConnectParam → Toolbox → System × Status × Option Peon
unfolding peon_task_add peon_sn_generate
peon_add_task_inner e s r param toolbox =
    let (s', sn) = peon_sn_generate s in peon_task_add e s' r sn param toolbox

-- What one turn of the loop of `peon_task_get` does with the i-th waiting task.
pub data Visit : Type 0 where
  -- The task is freed, and the next one stands at the same place.
  dropped : System → Visit
  -- The task stays where it is.
  skipped : System → Visit
  -- `task = p; break;`
  chosen : System → Visit

unfoldable pub visit : ℕ → PeonId → ℕ → Task → System → Visit
visit now r i p s =
    if is_dead p.state
    then dropped (put s r (count_down (unlink (s.peons r) i)))
    else let (s', action) = peon_task_action_judge s (s.peons r).type p in
      if action.wait
      then skipped s'
      else if action.discard
      then dropped (put s' r (count_down (unlink (s'.peons r) i)))
      else if peon_task_restrain_timeout now p (s'.peons r).restrain_time
      then chosen s'
      else skipped s'

-- `list_del(&task->node); list_add_tail(&task->node, &pe->proc_list)`.
unfoldable pub start_task : PeonId → ℕ → Task → System → System
start_task r i p s =
    let pe = s.peons r in put s r (record (unlink pe i) { proc_list = pe.proc_list ++ p ∷ [] })

-- What follows the turn: the next turn, or the end of the function with the task moved.
unfoldable pub get_next :
    (ℕ → System → System × Option Task) → PeonId → ℕ → Task → Visit → System × Option Task
unfolding start_task
get_next again r i p (dropped s) = again i s
get_next again r i p (skipped s) = again (suc i) s
get_next again r i p (chosen s) = (start_task r i p s, some p)

-- The loop of `peon_task_get` from the i-th waiting task, with the count of the tasks left for fuel.
-- The task's own fields are those read before its judgement, which passes over its own number.
unfoldable pub get_from : ℕ → ℕ → PeonId → ℕ → System → System × Option Task
unfolding visit get_next
get_from zero now r i s = (s, none)
get_from (suc fuel) now r i s = elim (get_elem? (s.peons r).wait_list i) [
  | none ↦ (s, none)
  | some p ↦ get_next (get_from fuel now r) r i p (visit now r i p s)
]

-- `peon_task_get`.
unfoldable pub peon_task_get : ℕ → PeonId → System → System × Option Task
unfolding get_from
peon_task_get now r s = get_from (length (s.peons r).wait_list) now r 0 s

-- `peon_move_task_to_recheck` and `peon_move_task_to_connect`.
unfoldable pub peon_move_task_to_recheck : System → Task → System
peon_move_task_to_recheck s t = put s recheck (enqueue (s.peons recheck) (record t { sn = 0 }))

unfoldable pub peon_move_task_to_connect : ℕ → System → Task → System
unfolding peon_sn_generate put
peon_move_task_to_connect now s t =
    let (s', sn) = peon_sn_generate s in
    put s' connect
      (enqueue (s'.peons connect) (record t { tm = now; next_run = 0; sn = sn; state = live }))

abbrev pub is_connect : PeonType → Bool
is_connect type_connect = true
is_connect type_disconn = false
is_connect type_dcbatch = false
is_connect type_recheck = false

-- `peon_task_complete`, for the i-th running task; `result` is what the driver returned.
unfoldable pub complete_task : ℕ → PeonId → ℕ → Task → Status → System → System
unfolding peon_move_task_to_recheck
complete_task now r i t result s =
    let pe = s.peons r in
    let s' = put s r (count_down (record pe { proc_list = remove_at pe.proc_list i })) in
    if is_dead t.state
    then s'
    else if is_success result
    then (if is_connect pe.type then peon_move_task_to_recheck s' t else s')
    else put s' r (enqueue (s'.peons r) (record t { next_run = now + peon_fail_retry_interval }))

unfoldable pub peon_task_complete : ℕ → PeonId → ℕ → Status → System → System
unfolding complete_task
peon_task_complete now r i result s = elim (get_elem? (s.peons r).proc_list i) [
  | none ↦ s
  | some t ↦ complete_task now r i t result s
]

-- The driver's `handle`, where there is one.
abbrev run_handle : ℕ → Task → Status
run_handle w t = elim t.toolbox.handle [
  | none ↦ success
  | some f ↦ f w t.ctx t.param.action_flag t.sn
]

-- `peon_task_proc` of a worker that no other worker interrupts: the task it ran, and its result.
unfoldable pub peon_task_proc : ℕ → ℕ → PeonId → System → System × Option (Task × Status)
unfolding peon_task_get peon_task_complete
peon_task_proc w now r s =
    let (s', got) = peon_task_get now r s in
    elim got [
      | none ↦ (s', none)
      | some t ↦ (
        peon_task_complete now r (length (s'.peons r).proc_list - 1) (run_handle w t) s',
        some (t, run_handle w t),
      )
    ]

-- What `peon_run_recheck` does with one task: it frees it, leaves it on the list, or moves it to the
-- waiting connect tasks.
pub data Verdict : Type 0 where
  freed kept relived : Verdict

unfoldable pub recheck_one : ℕ → Task → Verdict
recheck_one w t = if is_dead t.state then freed else elim t.toolbox.recheck [
  | none ↦ freed
  | some f ↦ if is_success (f w t.ctx) then kept else relived
]

unfoldable pub recheck_next :
    ℕ → (System → List Task × System) → Task → System → Verdict → List Task × System
unfolding peon_move_task_to_connect
recheck_next now again t s freed = again s
recheck_next now again t s kept = (t ∷ (again s).0, (again s).1)
recheck_next now again t s relived = again (peon_move_task_to_connect now s t)

-- The loop of `peon_run_recheck`: the tasks that stay on the list, and the state.
unfoldable pub recheck_list : ℕ → ℕ → List Task → System → List Task × System
unfolding recheck_one recheck_next
recheck_list w now [] s = ([], s)
recheck_list w now (t ∷ ts) s = recheck_next now (recheck_list w now ts) t s (recheck_one w t)

-- `peon_run_recheck`.
unfoldable pub peon_run_recheck : ℕ → ℕ → System → System
unfolding recheck_list put
peon_run_recheck w now s =
    let (l, s') = recheck_list w now (s.peons recheck).wait_list s in
    put s' recheck (record (s'.peons recheck) { wait_list = l })

-- `peon_worker_adjust_period`.
unfoldable pub peon_worker_adjust_period : Peon → ℕ
peon_worker_adjust_period pe = elim pe.wait_list [ [] ↦ pe.normal_period | t ∷ ts ↦ pe.fast_period ]

-- `peon_set_disconn_restrain_time`.
unfoldable pub peon_set_disconn_restrain_time : ℕ → System → System
unfolding put
peon_set_disconn_restrain_time time s =
    let s' = put s disconn (record (s.peons disconn) { restrain_time = time }) in
    put s' connect (record (s'.peons connect) {
      restrain_time = if time == 0 then peon_default_restrain_time else 0;
    })

-- `peon_dynamic_disconn_thread`, on its own peon: one `peon_task_proc`, and then
-- `peon_deconstruct` frees the tasks that the peon still holds.
unfoldable pub peon_dynamic_disconn_thread : ℕ → ℕ → System → Peon → System × Option (Task × Status)
unfolding peon_task_proc put
peon_dynamic_disconn_thread w now s pe =
    let (s', ran) = peon_task_proc w now dynamic (put s dynamic pe) in
    (
      record (put s' dynamic (record (s'.peons dynamic) { wait_list = [] })) {
        dyn_worker_num = u32 (s'.dyn_worker_num + 4294967295);
      },
      ran,
    )
