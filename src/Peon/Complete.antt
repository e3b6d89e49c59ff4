-- ===== src/Peon/Complete.antt =====
-- What becomes of a task when its driver has returned: retry, recheck, and the dynamic worker.
use nvme_snsd.Base.{
  ℕ, ◌+◌, ◌≡◌, refl, ap, ◌∙◌, ◌≤◌, ◌<◌, true, false, [], ◌∷◌, ◌++◌, none, some, arith, if_false,
  get_elem?, remove_at, length, length-append, length-remove_at, failure, Errno, decr,
}
use nvme_snsd.Peon.Task.{
  Task, live, PeonId, dynamic, Peon, System, put, put_hit, peon_task_restrain_timeout,
}
use nvme_snsd.Peon.Scan.{is_dead}
use nvme_snsd.Peon.Work.{
  AddEnv, peon_dyn_create, complete_task, peon_task_complete, peon_fail_retry_interval, enqueue,
  count_down, peon_dynamic_disconn_thread, peon_task_get, peon_task_proc,
}
use nvme_snsd.Peon.Get.{peon_task_get-none}

-- The tasks that a peon holds, waiting or running.
abbrev pub held : Peon → ℕ
held pe = length pe.wait_list + length pe.proc_list

abbrev pub retried : ℕ → Task → Task
retried now t = record t { next_run = now + peon_fail_retry_interval }

-- The peon that a failed live task goes back to.
abbrev requeued : ℕ → ℕ → Task → Peon → Peon
requeued now i t pe =
    enqueue (count_down (record pe { proc_list = remove_at pe.proc_list i })) (retried now t)

complete_failed :
    (now : ℕ) (r : PeonId) (i : ℕ) (t : Task) (e : Errno) (s : System)
    → get_elem? (s.peons r).proc_list i ≡ some t
    → t.state ≡ live
    → (peon_task_complete now r i (failure e) s).peons r ≡ requeued now i t (s.peons r)
unfolding peon_task_complete complete_task
complete_failed now r i t e s at alive =
    rw (at, peon_task_complete)
      (ap (λ (u : System). u.peons r) (if_false _ _ (ap is_dead alive))
        ∙ put_hit _ {r = r} {q = r} _ refl
        ∙ ap (λ pe. enqueue pe (retried now t)) (put_hit s {r = r} {q = r} _ refl))

-- A live task whose driver failed is put back at the end of the waiting list of its peon, which
-- keeps as many tasks as before, while `worker_all_count` falls by one: the counter no longer counts
-- the task.
complete_failed_uncounted :
    (now : ℕ) (r : PeonId) (i : ℕ) (t : Task) (e : Errno) (s : System)
    → get_elem? (s.peons r).proc_list i ≡ some t
    → t.state ≡ live
    → let pe = (peon_task_complete now r i (failure e) s).peons r in
      (pe.wait_list ≡ (s.peons r).wait_list ++ retried now t ∷ [])
      × (held pe ≡ held (s.peons r))
      × (pe.worker_all_count ≡ decr (s.peons r).worker_all_count)
complete_failed_uncounted now r i t e s at alive =
    let step = complete_failed now r i t e s at alive in
    (
      ap (λ pe. pe.wait_list) step,
      rw step (
          omega (
            arith,
            length-append (s.peons r).wait_list (retried now t ∷ []),
            length-remove_at (s.peons r).proc_list i at,
          )),
      ap (λ pe. pe.worker_all_count) step,
    )

-- A task that is put back at the time `now`, since its driver failed, is not due again, whatever
-- the restrain time, before 60 seconds have passed.
pub retried_not_due :
    (now later restrain_time : ℕ) (t : Task)
    → peon_task_restrain_timeout later (retried now t) restrain_time ≡ true
    → now + peon_fail_retry_interval ≤ later
unfolding peon_task_restrain_timeout
retried_not_due now later restrain_time t h = ground arith

not_due :
    (now : ℕ) (t : Task) (restrain_time : ℕ)
    → t.tm ≤ now
    → now < t.tm + restrain_time
    → peon_task_restrain_timeout now t restrain_time ≡ false
unfolding peon_task_restrain_timeout
not_due now t restrain_time early late = ground arith

peon_task_proc-none :
    (w now : ℕ) (r : PeonId) (s : System)
    → (peon_task_get now r s).1 ≡ none
    → (peon_task_proc w now r s).1 ≡ none
unfolding peon_task_proc
peon_task_proc-none w now r s h = ground arith

-- A dynamic disconnect worker whose restrain time has not passed when its thread runs does not run
-- its only task, and then frees it: the disconnection never happens, and its peon is left empty.
pub dynamic_restrained_lost :
    (w now : ℕ) (s : System) (e : AddEnv) (t : Task)
    → t.tm ≤ now
    → now < t.tm + e.cfg_restrain_time
    → let r = peon_dynamic_disconn_thread w now s (peon_dyn_create e t) in
      (r.1 ≡ none) × ((r.0.peons dynamic).wait_list ≡ [])
unfolding peon_dynamic_disconn_thread peon_dyn_create
dynamic_restrained_lost w now s e t early late =
    let s' = put s dynamic (peon_dyn_create e t) in
    let at : s'.peons dynamic ≡ peon_dyn_create e t =
      put_hit s {r = dynamic} {q = dynamic} _ refl in
    (
      peon_task_proc-none w now dynamic s' (
          peon_task_get-none now dynamic s' t (ap (λ pe. pe.wait_list) at) (
            ap (λ pe. peon_task_restrain_timeout now t pe.restrain_time) at
            ∙ not_due now t e.cfg_restrain_time early late)),
      ap (λ pe. pe.wait_list)
          (put_hit (peon_task_proc w now dynamic s').0 {r = dynamic} {q = dynamic} _ refl),
    )
