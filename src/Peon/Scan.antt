-- ===== src/Peon/Scan.antt =====
-- `peon_task_scan_list` and `peon_task_action_judge`.
use nvme_snsd.Base.{Bool, true, false, ◌||◌, not, ◌==◌, ltb, if◌then◌else◌, List, [], ◌∷◌}
use nvme_snsd.Peon.Task.{
  Task, TaskState, live, dead, PeonId, PeonType, connect, disconn, dcbatch, recheck, type_connect,
  type_disconn, type_dcbatch, type_recheck, Peon, System, put, peon_task_match,
}

-- `enum peon_task_action`, or-ed together: the two flag bits.
pub record Action : Type 0 where
  pub discard : Bool
  pub wait : Bool

abbrev pub action_none : Action
action_none = record { discard = false; wait = false }

-- `a |= b`.
abbrev pub merge : Action → Action → Action
merge a b = record { discard = a.discard || b.discard; wait = a.wait || b.wait }

abbrev pub is_dead : TaskState → Bool
is_dead live = false
is_dead dead = true

-- The body of the loop of `peon_task_scan_list`: what becomes of the entry `p`, and its flags.
unfoldable pub scan_one : Task → Task → Bool → Bool → Task × Action
scan_one p task isbatch iswait =
    if is_dead p.state
    then (p, action_none)
    else if not (peon_task_match p task isbatch)
    then (p, action_none)
    else if task.sn == p.sn
    then (p, action_none)
    else if ltb task.sn p.sn
    then (p, record { discard = true; wait = false })
    else (record p { state = dead }, record { discard = false; wait = not iswait })

-- `peon_task_scan_list`.
unfoldable pub peon_task_scan_list : List Task → Task → Bool → Bool → List Task × Action
unfolding scan_one
peon_task_scan_list [] task isbatch iswait = ([], action_none)
peon_task_scan_list (p ∷ ps) task isbatch iswait =
    let (q, a) = scan_one p task isbatch iswait in
    let (qs, b) = peon_task_scan_list ps task isbatch iswait in (q ∷ qs, merge a b)

-- Which list of a peon a scan goes over.
pub data Queue : Type 0 where
  waiting running : Queue

-- One call of `peon_task_scan_list` in `peon_task_action_judge`.
pub record Scan : Type 0 where
  pub peon : PeonId
  pub queue : Queue
  pub isbatch : Bool
  pub iswait : Bool

abbrev scan_wait : PeonId → Bool → Scan
scan_wait r isbatch = record { peon = r; queue = waiting; isbatch = isbatch; iswait = true }

abbrev scan_proc : PeonId → Bool → Scan
scan_proc r isbatch = record { peon = r; queue = running; isbatch = isbatch; iswait = false }

-- The calls of `peon_task_action_judge`, in their order, by the type of the peon.
abbrev pub schedule : PeonType → List Scan
schedule type_connect =
    scan_wait disconn false
    ∷ scan_proc disconn false
    ∷ scan_wait dcbatch true
    ∷ scan_proc dcbatch true
    ∷ scan_wait connect false
    ∷ scan_proc connect false
    ∷ scan_wait recheck false
    ∷ []
schedule type_disconn =
    scan_wait connect false ∷ scan_proc connect false ∷ scan_wait recheck false ∷ []
schedule type_dcbatch = scan_wait connect true ∷ scan_proc connect true ∷ []
schedule type_recheck = []

abbrev pub tasks_of : Queue → Peon → List Task
tasks_of waiting pe = pe.wait_list
tasks_of running pe = pe.proc_list

abbrev pub with_tasks : Queue → Peon → List Task → Peon
with_tasks waiting pe l = record pe { wait_list = l }
with_tasks running pe l = record pe { proc_list = l }

unfoldable pub run_scan : System → Task → Scan → System × Action
run_scan s task c =
    let pe = s.peons c.peon in
    let (l, a) = peon_task_scan_list (tasks_of c.queue pe) task c.isbatch c.iswait in
    (put s c.peon (with_tasks c.queue pe l), a)

unfoldable pub run_scans : System → Task → List Scan → System × Action
run_scans s task [] = (s, action_none)
run_scans s task (c ∷ cs) =
    let (s', a) = run_scan s task c in let (s'', b) = run_scans s' task cs in (s'', merge a b)

-- `peon_task_action_judge`.
unfoldable pub peon_task_action_judge : System → PeonType → Task → System × Action
peon_task_action_judge s type task = run_scans s task (schedule type)
