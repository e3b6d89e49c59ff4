-- ===== src/Peon/Reach.antt =====
-- The workers as a step relation: any interleaving of requests, of the workers' passes and of those of the
-- dynamic disconnect workers, src/snsd_conn_peon.c.
use nvme_snsd.Base.{
  ℕ, ◌+◌, ◌^◌, ◌≡◌, ◌≤◌, ◌<◌, List, arith, All, All-set, All-append, All-get, All-remove_at,
  All-map_pred, get_elem?, Option, some, none, refl, ◌∙◌, length, Status,
}
use nvme_snsd.Net.{ConnectParam}
use nvme_snsd.Peon.Task.{
  Task, Toolbox, PeonId, connect, disconn, dcbatch, recheck, dynamic, Peon, System, put,
  peon_sn_generate,
}
use nvme_snsd.Peon.Work.{
  AddEnv, new_task, peon_task_add, peon_task_get, peon_task_complete, peon_run_recheck,
}
use nvme_snsd.Peon.World.{
  Phase, begun, working, over, deconstructed, DynWorker, World, added_to, phase_of, keep_worker,
  worker_get, worker_complete, worker_deconstruct, worker_exit,
}
use nvme_snsd.Peon.Serial.{NewOk, add-NewOk, get-task_sn, complete-task_sn}
use nvme_snsd.Peon.Numbers.{PeonOk, NumberOk-mono, NumberOk, Numbered, Numbered-mono, put-Numbered}
use nvme_snsd.Peon.Steps.{generate-next, get-Numbered, complete-Numbered, add-Numbered}
use nvme_snsd.Peon.Rechecked.{run_recheck-Numbered}

-- The peons that take requests: `peon_add_connect_task`, `peon_add_disconn_task` and
-- `peon_add_dcbatch_task`.
pub data TakesRequests : PeonId → Type 0 where
  for_connect : TakesRequests connect
  for_disconn : TakesRequests disconn
  for_dcbatch : TakesRequests dcbatch

-- One pass under the lock. A request takes a number, and its task is added later, at any peon that takes
-- requests; `peon_add_disconn_task_inherit` adds one with a number of another task. The serial number, an
-- `unsigned long`, is supposed not to wrap.
pub data Step : World → World → Type 0 where
  generate :
      (w : World)
      → w.sys.task_sn + 1 < 2 ^ 64
      → Step w (record w { sys = (peon_sn_generate w.sys).0 })
  add :
      (e : AddEnv) (w : World) (r : PeonId) (sn : ℕ) (param : ConnectParam) (toolbox : Toolbox)
      → TakesRequests r
      → 0 < sn
      → sn ≤ w.sys.task_sn
      → Step w (added_to w (peon_task_add e w.sys r sn param toolbox))
  fetch :
      (now : ℕ) (r : PeonId) (w : World)
      → TakesRequests r
      → Step w (record w { sys = (peon_task_get now r w.sys).0 })
  complete :
      (now : ℕ) (r : PeonId) (i : ℕ) (result : Status) (w : World)
      → TakesRequests r
      → Step w (record w { sys = peon_task_complete now r i result w.sys })
  check :
      (v now : ℕ) (w : World)
      → w.sys.task_sn + length (w.sys.peons recheck).wait_list < 2 ^ 64
      → Step w (record w { sys = peon_run_recheck v now w.sys })
  -- The passes of a dynamic disconnect worker.
  fetch_dynamic :
      (now : ℕ) (w : World) (i : ℕ) (d : DynWorker)
      → get_elem? w.workers i ≡ some d
      → d.phase ≡ begun
      → Step w (worker_get now w i d)
  complete_dynamic :
      (now : ℕ) (result : Status) (w : World) (i : ℕ) (d : DynWorker)
      → get_elem? w.workers i ≡ some d
      → d.phase ≡ working
      → Step w (worker_complete now w i d result)
  deconstruct :
      (w : World) (i : ℕ) (d : DynWorker)
      → get_elem? w.workers i ≡ some d
      → d.phase ≡ over
      → Step w (worker_deconstruct w i d)
  exit :
      (w : World) (i : ℕ) (d : DynWorker)
      → get_elem? w.workers i ≡ some d
      → d.phase ≡ deconstructed
      → Step w (worker_exit w i)

pub data Reach (s : World) : World → Type 0 where
  here : Reach s s
  next : {t u : World} → Reach s t → Step t u → Reach s u

TakesRequests-NumberOk :
    (top : ℕ) {r : PeonId} (t : Task) → TakesRequests r → 0 < t.sn → t.sn ≤ top → NumberOk top r t
TakesRequests-NumberOk top t for_connect p q = (p, q)
TakesRequests-NumberOk top t for_disconn p q = (p, q)
TakesRequests-NumberOk top t for_dcbatch p q = (p, q)

-- The tasks of the dynamic workers carry numbers like those of the disconnect peon.
abbrev pub WorkersOk : ℕ → List DynWorker → Type 0
WorkersOk top = All (λ (d : DynWorker). PeonOk top dynamic d.peon)

-- On the peons and on the dynamic workers.
abbrev pub AllNumbered : World → Type 0
AllNumbered w = Numbered w.sys × WorkersOk w.sys.task_sn w.workers

PeonOk-mono :
    (top top' : ℕ) (q : PeonId) (pe : Peon) → top ≤ top' → PeonOk top q pe → PeonOk top' q pe
PeonOk-mono top top' q pe le h = (
  All-map_pred (NumberOk top q) (NumberOk top' q) (NumberOk-mono top top' q le) pe.wait_list h.0,
  All-map_pred (NumberOk top q) (NumberOk top' q) (NumberOk-mono top top' q le) pe.proc_list h.1,
)

WorkersOk-mono :
    (top top' : ℕ) (ws : List DynWorker) → top ≤ top' → WorkersOk top ws → WorkersOk top' ws
WorkersOk-mono top top' ws le h =
    All-map_pred (λ (d : DynWorker). PeonOk top dynamic d.peon)
      (λ (d : DynWorker). PeonOk top' dynamic d.peon) (λ d. PeonOk-mono top top' dynamic d.peon le)
      ws h

-- A step that leaves the dynamic workers.
stays :
    (w : World) (s : System)
    → w.sys.task_sn ≤ s.task_sn
    → Numbered s
    → AllNumbered w
    → AllNumbered (record w { sys = s })
stays w s le n h = (n, WorkersOk-mono w.sys.task_sn s.task_sn w.workers le h.1)

added_to-AllNumbered :
    (w : World) (r : System × Status × Option Peon)
    → NewOk w.sys.task_sn r
    → Numbered r.0
    → AllNumbered w
    → AllNumbered (added_to w r)
added_to-AllNumbered w (s, result, none) e n h =
    (n, WorkersOk-mono w.sys.task_sn s.task_sn w.workers (omega arith) h.1)
added_to-AllNumbered w (s, result, some pe) (e, ok) n h = (
  n,
  All-append (λ (d : DynWorker). PeonOk s.task_sn dynamic d.peon) w.workers _
      (WorkersOk-mono w.sys.task_sn s.task_sn w.workers (omega arith) h.1)
      (PeonOk-mono w.sys.task_sn s.task_sn dynamic pe (omega arith) ok, tt),
)

-- A step of one worker on its own peon.
keep_worker-AllNumbered :
    (w : World) (i : ℕ) (phase : Phase) (s : System)
    → s.task_sn ≡ w.sys.task_sn
    → Numbered s
    → AllNumbered w
    → AllNumbered (keep_worker w i phase s)
keep_worker-AllNumbered w i phase s e n h = (
  n,
  All-set (λ (d : DynWorker). PeonOk s.task_sn dynamic d.peon) w.workers i _ (n dynamic)
      (WorkersOk-mono w.sys.task_sn s.task_sn w.workers (omega arith) h.1),
)

-- The worker's peon is a numbered one.
load-Numbered :
    (w : World) (i : ℕ) (d : DynWorker)
    → get_elem? w.workers i ≡ some d
    → AllNumbered w
    → Numbered (put w.sys dynamic d.peon)
load-Numbered w i d e h =
    put-Numbered w.sys dynamic d.peon
      (All-get (λ (x : DynWorker). PeonOk w.sys.task_sn dynamic x.peon) w.workers i h.1 e) h.0

load-task_sn : (s : System) (pe : Peon) → (put s dynamic pe).task_sn ≡ s.task_sn
unfolding put
load-task_sn s pe = refl

Step-AllNumbered : {v w : World} → Step v w → AllNumbered v → AllNumbered w
Step-AllNumbered (generate w fits) h = rw (generate-next w.sys fits) (
    stays w (record w.sys { task_sn = w.sys.task_sn + 1 }) (omega arith)
      (Numbered-mono w.sys (w.sys.task_sn + 1) (omega arith) h.0) h)
Step-AllNumbered (add e w r sn param toolbox k p q) h =
    added_to-AllNumbered w (peon_task_add e w.sys r sn param toolbox)
      (add-NewOk e w.sys r sn param toolbox p q)
      (add-Numbered e w.sys r sn param toolbox
        (λ ctx. TakesRequests-NumberOk w.sys.task_sn (new_task e sn param toolbox ctx) k p q) h.0)
      h
Step-AllNumbered (fetch now r w k) h =
    stays w (peon_task_get now r w.sys).0 (omega (arith, get-task_sn now r w.sys))
      (get-Numbered now r w.sys h.0) h
Step-AllNumbered (complete now r i result w k) h =
    stays w (peon_task_complete now r i result w.sys)
      (omega (arith, complete-task_sn now r i result w.sys))
      (complete-Numbered now r i result w.sys h.0) h
Step-AllNumbered (check v now w fits) h =
    let r = run_recheck-Numbered v now w.sys fits h.0 in
    stays w (peon_run_recheck v now w.sys) r.1 r.0 h
Step-AllNumbered (fetch_dynamic now w i d e b) h =
    let s = put w.sys dynamic d.peon in
    keep_worker-AllNumbered w i (phase_of (peon_task_get now dynamic s).1)
      (peon_task_get now dynamic s).0 (get-task_sn now dynamic s ∙ load-task_sn w.sys d.peon)
      (get-Numbered now dynamic s (load-Numbered w i d e h)) h
Step-AllNumbered (complete_dynamic now result w i d e b) h =
    let s = put w.sys dynamic d.peon in
    keep_worker-AllNumbered w i over (peon_task_complete now dynamic 0 result s)
      (complete-task_sn now dynamic 0 result s ∙ load-task_sn w.sys d.peon)
      (complete-Numbered now dynamic 0 result s (load-Numbered w i d e h)) h
Step-AllNumbered (deconstruct w i d e b) h =
    let P = λ (x : DynWorker). PeonOk w.sys.task_sn dynamic x.peon in
    (h.0, All-set P w.workers i _ (tt, (All-get P w.workers i h.1 e).1) h.1)
Step-AllNumbered (exit w i d e b) h =
    (h.0, All-remove_at (λ (x : DynWorker). PeonOk w.sys.task_sn dynamic x.peon) w.workers i h.1)

-- From a state in which the tasks that wait or run at a peon, a dynamic worker's own one included, carry
-- numbers from 1 to the generator's, and those on the recheck list carry 0, this holds whatever the requests,
-- the workers, the dynamic disconnect workers and the recheck worker do, in any order, while the generator
-- does not wrap.
pub Reach-AllNumbered : {v w : World} → AllNumbered v → Reach v w → AllNumbered w
Reach-AllNumbered h here = h
Reach-AllNumbered h (next r st) = Step-AllNumbered st (Reach-AllNumbered h r)
