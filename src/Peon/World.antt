-- ===== src/Peon/World.antt =====
-- The peons with all the dynamic disconnect workers that run beside them: each of these has a peon of its
-- own, src/snsd_conn_peon.c. A step of one finds its peon at `dynamic`.
use nvme_snsd.Base.{ℕ, ◌+◌, List, [], ◌∷◌, ◌++◌, Option, none, some, set, remove_at, Status, u32}
use nvme_snsd.Peon.Task.{Task, dynamic, Peon, System, put}
use nvme_snsd.Peon.Work.{peon_task_get, peon_task_complete}

-- How far `peon_dynamic_disconn_thread` has come: it has begun, it has a task that the driver works on, its
-- `peon_task_proc` is over, or its peon has been deconstructed.
pub data Phase : Type 0 where
  begun working over deconstructed : Phase

pub record DynWorker : Type 0 where
  pub peon : Peon
  pub phase : Phase

pub record World : Type 0 where
  pub sys : System
  pub workers : List DynWorker

-- The worker that `peon_task_add` may start.
abbrev pub start_worker : List DynWorker → Option Peon → List DynWorker
start_worker ws none = ws
start_worker ws (some pe) = ws ++ record { peon = pe; phase = begun } ∷ []

-- After a request.
abbrev pub added_to : World → System × Status × Option Peon → World
added_to w r = record { sys = r.0; workers = start_worker w.workers r.2 }

abbrev pub phase_of : Option Task → Phase
phase_of none = over
phase_of (some t) = working

abbrev pub keep_worker : World → ℕ → Phase → System → World
keep_worker w i phase s = record {
  sys = s;
  workers = set w.workers i (record { peon = s.peons dynamic; phase = phase });
}

-- `peon_task_get` of the i-th worker.
abbrev pub worker_get : ℕ → World → ℕ → DynWorker → World
worker_get now w i d =
    let r = peon_task_get now dynamic (put w.sys dynamic d.peon) in
    keep_worker w i (phase_of r.1) r.0

-- `peon_task_complete` of the i-th worker, on its one running task.
abbrev pub worker_complete : ℕ → World → ℕ → DynWorker → Status → World
worker_complete now w i d result =
    keep_worker w i over (peon_task_complete now dynamic 0 result (put w.sys dynamic d.peon))

-- `peon_deconstruct`, which frees the tasks that still wait.
abbrev pub worker_deconstruct : World → ℕ → DynWorker → World
worker_deconstruct w i d = record w {
  workers =
      set w.workers i (record { peon = record d.peon { wait_list = [] }; phase = deconstructed });
}

-- The end of the thread: `peon_dyn_worker_num--`, on an `unsigned int`.
abbrev pub worker_exit : World → ℕ → World
worker_exit w i = record {
  sys = record w.sys { dyn_worker_num = u32 (w.sys.dyn_worker_num + 4294967295) };
  workers = remove_at w.workers i;
}
