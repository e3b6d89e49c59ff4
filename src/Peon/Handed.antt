-- ===== src/Peon/Handed.antt =====
-- What `peon_task_get` does after a judgement that asks for a wait, src/snsd_conn_peon.c.
use nvme_snsd.Base.{
  ℕ, ◌+◌, length-append, ◌≡◌, refl, sym, ap, ◌∙◌, subst, Bool, true, false, List, [], ◌∷◌, Option,
  none, some, arith, get_elem?, length, if_true, if_false,
}
use nvme_snsd.Peon.Task.{
  Task, live, PeonId, PeonType, Peon, System, put_cases, put_hit, peon_task_restrain_timeout,
}
use nvme_snsd.Peon.Scan.{
  Scan, Action, Queue, waiting, running, is_dead, scan_one, peon_task_scan_list, run_scan,
  run_scans, schedule, tasks_of, with_tasks, peon_task_action_judge,
}
use nvme_snsd.Peon.Conflict.{
  Fades, run_scans-Fades, Guarded, Settled, AllSettled, queue, Fades-Guarded, run_scan-Fades,
  judge-Settled, judge_waits_once,
}
use nvme_snsd.Peon.Work.{start_task, skipped, chosen, visit, get_next, get_from, peon_task_get}
use nvme_snsd.Peon.Get.{judge-SameTypes, judge-restrain_time}

scan_one_quiet :
    (p task : Task) (b w : Bool)
    → Guarded (λ n. n ≡ task.sn) task b p
    → (scan_one p task b w).1.discard ≡ false
unfolding scan_one
scan_one_quiet p task b w h = ground arith

scan_list_quiet :
    (l : List Task) (task : Task) (b w : Bool)
    → Settled task b l
    → (peon_task_scan_list l task b w).1.discard ≡ false
unfolding peon_task_scan_list
scan_list_quiet [] task b w h = refl
scan_list_quiet (p ∷ ps) task b w h =
    ground (arith, scan_one_quiet p task b w h.0, scan_list_quiet ps task b w h.1)

AllSettled-run_scan :
    (s : System) (task : Task) (c : Scan) (cs : List Scan)
    → AllSettled s task cs
    → AllSettled (run_scan s task c).0 task cs
AllSettled-run_scan s task c [] h = tt
AllSettled-run_scan s task c (d ∷ cs) h = (
  Fades-Guarded _ task d.isbatch _ _ (run_scan-Fades s task c d.peon d.queue) h.0,
  AllSettled-run_scan s task c cs h.1,
)

run_scan_quiet :
    (s : System) (task : Task) (c : Scan)
    → Settled task c.isbatch (queue s c.peon c.queue)
    → (run_scan s task c).1.discard ≡ false
unfolding run_scan
run_scan_quiet s task c h = scan_list_quiet _ task c.isbatch c.iswait h

run_scans_quiet :
    (s : System) (task : Task) (cs : List Scan)
    → AllSettled s task cs
    → (run_scans s task cs).1.discard ≡ false
unfolding run_scans
run_scans_quiet s task [] h = refl
run_scans_quiet s task (c ∷ cs) h = ground (
  arith,
  run_scans_quiet (run_scan s task c).0 task cs (AllSettled-run_scan s task c cs h.1),
  run_scan_quiet s task c h.0,
)

-- A task that is not told to be discarded is not told so by the next judgement.
judge_again_quiet :
    (s : System) (type : PeonType) (task : Task)
    → (peon_task_action_judge s type task).1.discard ≡ false
    → (peon_task_action_judge (peon_task_action_judge s type task).0 type task).1.discard ≡ false
unfolding peon_task_action_judge
judge_again_quiet s type task h =
    run_scans_quiet _ task (schedule type) (judge-Settled s type task h)

-- A scan passes over the task itself.
scan_list_self : (t : Task) (b w : Bool) → (peon_task_scan_list (t ∷ []) t b w).0 ≡ t ∷ []
unfolding peon_task_scan_list scan_one
scan_list_self t b w = ground arith

run_scan_self :
    (s : System) (t : Task) (c : Scan) (r : PeonId)
    → (s.peons r).wait_list ≡ t ∷ []
    → ((run_scan s t c).0.peons r).wait_list ≡ t ∷ []
unfolding run_scan
run_scan_self s t c r h =
    put_cases (λ pe. pe.wait_list ≡ t ∷ []) s c.peon r _
      (λ e. here c.queue (s.peons c.peon) (ap (λ q. (s.peons q).wait_list) e ∙ h)) λ _. h
  where
    here :
        (k : Queue) (pe : Peon)
        → pe.wait_list ≡ t ∷ []
        → (with_tasks k pe (peon_task_scan_list (tasks_of k pe) t c.isbatch c.iswait).0).wait_list
          ≡ t ∷ []
    here waiting pe e =
        ap (λ l. (peon_task_scan_list l t c.isbatch c.iswait).0) e
        ∙ scan_list_self t c.isbatch c.iswait
    here running pe e = e

run_scans_self :
    (s : System) (t : Task) (cs : List Scan) (r : PeonId)
    → (s.peons r).wait_list ≡ t ∷ []
    → ((run_scans s t cs).0.peons r).wait_list ≡ t ∷ []
unfolding run_scans
run_scans_self s t [] r h = h
run_scans_self s t (c ∷ cs) r h = run_scans_self (run_scan s t c).0 t cs r (run_scan_self s t c r h)

judge_self :
    (s : System) (type : PeonType) (t : Task) (r : PeonId)
    → (s.peons r).wait_list ≡ t ∷ []
    → ((peon_task_action_judge s type t).0.peons r).wait_list ≡ t ∷ []
unfolding peon_task_action_judge
judge_self s type t r h = run_scans_self s t (schedule type) r h

get_from_one :
    (now : ℕ) (r : PeonId) (s : System) (t : Task)
    → get_elem? (s.peons r).wait_list 0 ≡ some t
    → get_from 1 now r 0 s ≡ get_next (λ i u. (u, none)) r 0 t (visit now r 0 t s)
unfolding get_from
get_from_one now r s t e = rw (e, get_from) refl

-- What `peon_task_get` does where one task waits.
get_only :
    (now : ℕ) (r : PeonId) (s : System) (t : Task)
    → (s.peons r).wait_list ≡ t ∷ []
    → peon_task_get now r s ≡ get_next (λ i u. (u, none)) r 0 t (visit now r 0 t s)
unfolding peon_task_get
get_only now r s t only =
    rw (ap length only) (get_from_one now r s t (ap (λ l. get_elem? l 0) only))

-- A judgement of a task that asks for nothing, or for a wait.
abbrev judged : PeonId → Task → System → System × Action
judged r t s = peon_task_action_judge s (s.peons r).type t

module _ (now : ℕ) (r : PeonId) (t : Task) (s : System) where
  visit-chosen :
      t.state ≡ live
      → peon_task_restrain_timeout now t (s.peons r).restrain_time ≡ true
      → (judged r t s).1.wait ≡ false
      → (judged r t s).1.discard ≡ false
      → visit now r 0 t s ≡ chosen (judged r t s).0
  unfolding visit
  visit-chosen alive due calm quiet =
      if_false _ _ (ap is_dead alive)
      ∙ (if_false _ _ calm
          ∙ (if_false _ _ quiet
              ∙ if_true _ _ (
                  ap (peon_task_restrain_timeout now t) (judge-restrain_time s (s.peons r).type t r)
                  ∙ due)))

  visit-skipped :
      t.state ≡ live → (judged r t s).1.wait ≡ true → visit now r 0 t s ≡ skipped (judged r t s).0
  unfolding visit
  visit-skipped alive waits = if_false _ _ (ap is_dead alive) ∙ if_true _ _ waits

  -- A due task that is asked for nothing is handed out.
  get-handed :
      (s.peons r).wait_list ≡ t ∷ []
      → t.state ≡ live
      → peon_task_restrain_timeout now t (s.peons r).restrain_time ≡ true
      → (judged r t s).1.wait ≡ false
      → (judged r t s).1.discard ≡ false
      → peon_task_get now r s ≡ (start_task r 0 t (judged r t s).0, some t)
  unfolding get_next
  get-handed only alive due calm quiet =
      get_only now r s t only
      ∙ ap (get_next (λ i u. (u, none)) r 0 t) (visit-chosen alive due calm quiet)

  get-waits :
      (s.peons r).wait_list ≡ t ∷ []
      → t.state ≡ live
      → (judged r t s).1.wait ≡ true
      → peon_task_get now r s ≡ ((judged r t s).0, none)
  unfolding get_next
  get-waits only alive waits =
      get_only now r s t only ∙ ap (get_next (λ i u. (u, none)) r 0 t) (visit-skipped alive waits)

Fades-length : (l m : List Task) → Fades l m → length m ≡ length l
Fades-length [] [] f = refl
Fades-length [] (_ ∷ _) f = absurd f
Fades-length (_ ∷ _) [] f = absurd f
Fades-length (x ∷ xs) (y ∷ ys) f = omega (arith, Fades-length xs ys f.1)

-- A judgement ends no running task.
judge-running :
    (s : System) (type : PeonType) (t : Task) (r : PeonId)
    → length ((peon_task_action_judge s type t).0.peons r).proc_list ≡ length (s.peons r).proc_list
unfolding peon_task_action_judge
judge-running s type t r = Fades-length _ _ (run_scans-Fades s t (schedule type) r running)

start_task-running :
    (s : System) (t : Task) (r : PeonId)
    → length ((start_task r 0 t s).peons r).proc_list ≡ length (s.peons r).proc_list + 1
unfolding start_task
start_task-running s t r =
    ap (λ (pe : Peon). length pe.proc_list) (put_hit s _ refl)
    ∙ length-append (s.peons r).proc_list (t ∷ [])

-- The only waiting task of a peon, alive, due at the second of two calls of `peon_task_get`, not told to be
-- discarded, but told to wait for an older running task: the first call hands out nothing, and the second
-- one hands the task out, although nothing happens between them. No task has ended meanwhile: the peon has
-- one more running task than before.
pub peon_task_get_beside :
    (now later : ℕ) (r : PeonId) (s : System) (t : Task)
    → (s.peons r).wait_list ≡ t ∷ []
    → t.state ≡ live
    → peon_task_restrain_timeout later t (s.peons r).restrain_time ≡ true
    → (peon_task_action_judge s (s.peons r).type t).1.wait ≡ true
    → (peon_task_action_judge s (s.peons r).type t).1.discard ≡ false
    → let first = peon_task_get now r s in
      let second = peon_task_get later r first.0 in
      (first.1 ≡ none)
      × (second.1 ≡ some t)
      × (length (second.0.peons r).proc_list ≡ length (s.peons r).proc_list + 1)
peon_task_get_beside now later r s t only alive due waits quiet =
    let type = (s.peons r).type in
    let s' = (judged r t s).0 in
    let first = get-waits now r t s only alive waits in
    let same : (s'.peons r).type ≡ type = judge-SameTypes s type t r in
    let second =
      ap (λ (o : System × Option Task). peon_task_get later r o.0) first
      ∙ get-handed later r t s' (judge_self s type t r only) alive
          (ap (peon_task_restrain_timeout later t) (judge-restrain_time s type t r) ∙ due)
          (subst (λ y. (peon_task_action_judge s' y t).1.wait ≡ false) (sym same)
            (judge_waits_once s type t))
          (subst (λ y. (peon_task_action_judge s' y t).1.discard ≡ false) (sym same)
            (judge_again_quiet s type t quiet)) in
    (
      ap (λ (o : System × Option Task). o.1) first,
      ap (λ (o : System × Option Task). o.1) second,
      ap (λ (o : System × Option Task). length (o.0.peons r).proc_list) second
          ∙ (start_task-running (judged r t s').0 t r
              ∙ omega (arith, judge-running s' (s'.peons r).type t r, judge-running s type t r)),
    )
