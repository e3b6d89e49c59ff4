-- ===== src/Peon/Latest.antt =====
-- The start of the workers, and the latest request for a device after any history of them.
use nvme_snsd.Base.{
  ℕ, ◌≡◌, refl, sym, subst, ◌≤◌, ◌<◌, ◌⊎◌, Bool, false, List, [], ◌∷◌, arith, All, All-map_pred,
  pos,
}
use nvme_snsd.Peon.Task.{
  Task, PeonId, PeonType, connect, disconn, dcbatch, recheck, dynamic, type_connect, type_disconn,
  type_dcbatch, type_recheck, Peon, System, store, PeonId-discrete,
}
use nvme_snsd.Peon.Scan.{
  Scan, Queue, waiting, running, scan_one, peon_task_scan_list, run_scan, run_scans, schedule,
  peon_task_action_judge,
}
use nvme_snsd.Peon.Conflict.{Fades, queue, run_scan-Fades}
use nvme_snsd.Peon.Work.{peon_set_disconn_restrain_time}
use nvme_snsd.Peon.Numbers.{NumberOk, Numbered, NumberOk-le}
use nvme_snsd.Peon.World.{World}
use nvme_snsd.Peon.Reach.{Reach, AllNumbered, Reach-AllNumbered}

abbrev type_of : PeonId → PeonType
type_of connect = type_connect
type_of disconn = type_disconn
type_of dcbatch = type_dcbatch
type_of recheck = type_recheck
type_of dynamic = type_disconn

-- The number of workers, and their periods when idle and when busy: `peon_worker_envs`.
abbrev worker_env : PeonId → ℕ × ℕ × ℕ
worker_env connect = (1, 10, 1)
worker_env disconn = (16, 10, 1)
worker_env dcbatch = (1, 10, 1)
worker_env recheck = (1, 60, 60)
worker_env dynamic = (1, 10, 1)

-- `peon_construct`, where it succeeds.
unfoldable pub peon_construct : PeonId → Peon
peon_construct r = record {
  type = type_of r;
  wait_list = [];
  proc_list = [];
  restrain_time = 0;
  normal_period = (worker_env r).1;
  fast_period = (worker_env r).2;
  worker_num = (worker_env r).0;
  worker_all_count = pos 0;
}

-- `peon_init`, where the four peons can be constructed.
unfoldable pub peon_init : ℕ → System
unfolding peon_construct peon_set_disconn_restrain_time
peon_init restrain_time =
    peon_set_disconn_restrain_time restrain_time
      (record { peons = peon_construct; task_sn = 0; dyn_worker_num = 0 })

-- Of the connect and the disconnect peon exactly one restrains its tasks, the connect peon by the
-- default time; no other peon does.
pub peon_init-restrain_time :
    (time : ℕ)
    → (((peon_init time).peons disconn).restrain_time ≡ time)
      × (((((peon_init time).peons connect).restrain_time ≡ 3) × (time ≡ 0))
          ⊎ ((((peon_init time).peons connect).restrain_time ≡ 0) × (0 < time)))
unfolding peon_init store PeonId-discrete
peon_init-restrain_time time = ground arith

abbrev AllBelow : ℕ → System → Type 0
AllBelow n s = (q : PeonId) → (k : Queue) → All (λ p. p.sn ≤ n) (queue s q k)

Numbered-AllBelow : (s : System) → Numbered s → AllBelow s.task_sn s
Numbered-AllBelow s h q waiting =
    All-map_pred (NumberOk s.task_sn q) (λ p. p.sn ≤ s.task_sn) (NumberOk-le s.task_sn q)
      (s.peons q).wait_list (h q).0
Numbered-AllBelow s h q running =
    All-map_pred (NumberOk s.task_sn q) (λ p. p.sn ≤ s.task_sn) (NumberOk-le s.task_sn q)
      (s.peons q).proc_list (h q).1

Fades-All_le : (n : ℕ) (l m : List Task) → Fades l m → All (λ p. p.sn ≤ n) l → All (λ p. p.sn ≤ n) m
Fades-All_le n [] [] f h = tt
Fades-All_le n [] (_ ∷ _) f h = absurd f
Fades-All_le n (_ ∷ _) [] f h = absurd f
Fades-All_le n (x ∷ xs) (y ∷ ys) f h = (ground arith, Fades-All_le n xs ys f.1 h.1)

scan_list_latest :
    (l : List Task) (task : Task) (b w : Bool)
    → All (λ p. p.sn ≤ task.sn) l
    → (peon_task_scan_list l task b w).1.discard ≡ false
unfolding peon_task_scan_list scan_one
scan_list_latest [] task b w h = refl
scan_list_latest (p ∷ ps) task b w h = ground (arith, scan_list_latest ps task b w h.1)

run_scan_latest :
    (s : System) (task : Task) (c : Scan)
    → All (λ p. p.sn ≤ task.sn) (queue s c.peon c.queue)
    → (run_scan s task c).1.discard ≡ false
unfolding run_scan
run_scan_latest s task c h = scan_list_latest _ task c.isbatch c.iswait h

run_scans_latest :
    (s : System) (task : Task) (cs : List Scan)
    → AllBelow task.sn s
    → (run_scans s task cs).1.discard ≡ false
unfolding run_scans
run_scans_latest s task [] h = refl
run_scans_latest s task (c ∷ cs) h = ground (
  arith,
  run_scan_latest s task c (h c.peon c.queue),
  run_scans_latest (run_scan s task c).0 task cs
      (λ q k. Fades-All_le task.sn _ _ (run_scan-Fades s task c q k) (h q k)),
)

peon_init-Numbered : (time : ℕ) → Numbered (peon_init time)
unfolding peon_init store PeonId-discrete
peon_init-Numbered time connect = (tt, tt)
peon_init-Numbered time disconn = (tt, tt)
peon_init-Numbered time dcbatch = (tt, tt)
peon_init-Numbered time recheck = (tt, tt)
peon_init-Numbered time dynamic = (tt, tt)

-- The state at the start, without a dynamic worker.
abbrev pub first_world : ℕ → World
first_world restrain_time = record { sys = peon_init restrain_time; workers = [] }

pub first_world-AllNumbered : (time : ℕ) → AllNumbered (first_world time)
first_world-AllNumbered time = (peon_init-Numbered time, tt)

-- After any history of requests and passes from `peon_init`, those of the dynamic disconnect workers
-- included, a task with the number given out last is never told to be discarded, whatever the type of the
-- peon that judges it.
pub latest_not_discarded :
    (restrain_time : ℕ) (w : World) (type : PeonType) (task : Task)
    → Reach (first_world restrain_time) w
    → task.sn ≡ w.sys.task_sn
    → (peon_task_action_judge w.sys type task).1.discard ≡ false
unfolding peon_task_action_judge
latest_not_discarded restrain_time w type task r e = run_scans_latest w.sys task (schedule type) (
    subst (λ n. AllBelow n w.sys) (sym e)
      (Numbered-AllBelow w.sys (Reach-AllNumbered (first_world-AllNumbered restrain_time) r).0))
