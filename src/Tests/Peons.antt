-- ===== src/Tests/Peons.antt =====
-- Runs of src/snsd_conn_peon.c on small systems.
use nvme_snsd.Base.{
  length, ◌+◌, ℕ, ◌≤◌, ◌≡◌, refl, get_elem?, true, false, [], ◌∷◌, Option, none, some, arith,
  replicate,
}
use nvme_snsd.Net.{ConnectParam, sw}
use nvme_snsd.Peon.Task.{
  peon_sn_generate, Toolbox, Task, live, dead, PeonId, PeonId-discrete, connect, disconn,
  type_connect, type_disconn, Peon, System, put, store, peon_sn_generate,
  peon_task_restrain_timeout,
}
use nvme_snsd.Peon.Scan.{peon_task_action_judge, schedule}
use nvme_snsd.Peon.Work.{
  AddEnv, peon_add_task_inner, peon_task_add, peon_task_get, peon_dyn_create,
  peon_dynamic_disconn_thread,
}
use nvme_snsd.Peon.Get.{IsStarted, peon_task_get-IsStarted}
use nvme_snsd.Peon.Handed.{peon_task_get_beside}
use nvme_snsd.Peon.Complete.{dynamic_restrained_lost}
use nvme_snsd.Peon.Reach.{
  Reach, AllNumbered, generate, add, here, next, for_connect, Reach-AllNumbered,
}
use nvme_snsd.Peon.Latest.{peon_init, first_world, first_world-AllNumbered, latest_not_discarded}
use nvme_snsd.Peon.World.{World, added_to}

abbrev param : ConnectParam
param = record {
  protocol = 1;
  portid = 0;
  family = 2;
  traddr = 10 ∷ 0 ∷ 0 ∷ 1 ∷ replicate 12 0;
  host_traddr = 10 ∷ 0 ∷ 0 ∷ 2 ∷ replicate 12 0;
  subsysnqn = [];
  mode = sw;
  action_flag = 0;
}

abbrev no_driver : Toolbox
no_driver = record { ctx_init = none; handle = none; recheck = none }

abbrev task : ℕ → Task
task sn = record {
  tm = 100;
  next_run = 0;
  sn = sn;
  state = live;
  toolbox = no_driver;
  ctx = none;
  param = param;
}

abbrev env : AddEnv
env = record { w = 0; now = 100; alloc_ok = true; dyn_ok = true; cfg_restrain_time = 5 }

-- After one request for a connection.
abbrev requested : System
requested = (peon_add_task_inner env (peon_init 0) connect param no_driver).0

-- A running connect task, in a system where another waits.
abbrev busy : System
busy =
    put (peon_init 0) connect
      (record ((peon_init 0).peons connect) { wait_list = task 2 ∷ []; proc_list = task 1 ∷ [] })

running_is_waited_for : (peon_task_action_judge busy type_connect (task 2)).1.wait ≡ true
unfolding peon_task_action_judge peon_init store PeonId-discrete nvme_snsd.Peon.Scan.run_scans
    nvme_snsd.Peon.Scan.run_scan nvme_snsd.Peon.Scan.peon_task_scan_list
    nvme_snsd.Peon.Task.peon_task_match nvme_snsd.Net.snsd_ip_match
running_is_waited_for = refl

not_discarded : (peon_task_action_judge busy type_connect (task 2)).1.discard ≡ false
unfolding peon_task_action_judge peon_init store PeonId-discrete nvme_snsd.Peon.Scan.run_scans
    nvme_snsd.Peon.Scan.run_scan nvme_snsd.Peon.Scan.peon_task_scan_list
    nvme_snsd.Peon.Task.peon_task_match nvme_snsd.Net.snsd_ip_match
not_discarded = refl

-- A system in which one connect task waits.
abbrev idle : System
idle = put (peon_init 0) connect (record ((peon_init 0).peons connect) { wait_list = task 2 ∷ [] })

abbrev fetched : System × Option Task
fetched = peon_task_get 200 connect idle

fetched-task : fetched ≡ (fetched.0, some (task 2))
unfolding peon_task_get put store PeonId-discrete peon_task_action_judge
    nvme_snsd.Peon.Scan.run_scans peon_init nvme_snsd.Peon.Scan.run_scan
    nvme_snsd.Peon.Scan.peon_task_scan_list nvme_snsd.Peon.Task.peon_task_match
    nvme_snsd.Net.snsd_ip_match peon_task_restrain_timeout
fetched-task = refl

peon_task_get-IsStarted_example : IsStarted 200 connect idle (task 2) fetched.0
peon_task_get-IsStarted_example =
    peon_task_get-IsStarted 200 connect idle fetched.0 (task 2) fetched-task

waiting_only : (busy.peons connect).wait_list ≡ task 2 ∷ []
unfolding put store PeonId-discrete
waiting_only = refl

waiting_due :
    (now : ℕ)
    → 103 ≤ now
    → peon_task_restrain_timeout now (task 2) (busy.peons connect).restrain_time ≡ true
unfolding peon_task_restrain_timeout put store PeonId-discrete peon_init
waiting_due now h = ground arith

-- The first call of the two asks for a wait, since task 1 is running.
peon_task_get_beside_example :
    let first = peon_task_get 200 connect busy in
    let second = peon_task_get 201 connect first.0 in
    (first.1 ≡ none)
    × (second.1 ≡ some (task 2))
    × (length (second.0.peons connect).proc_list ≡ length (busy.peons connect).proc_list + 1)
unfolding put store PeonId-discrete peon_init
peon_task_get_beside_example =
    peon_task_get_beside 200 201 connect busy (task 2) waiting_only refl
      (waiting_due 201 (omega arith)) running_is_waited_for not_discarded

running_first : get_elem? (busy.peons connect).proc_list 0 ≡ some (task 1)
unfolding put store PeonId-discrete
running_first = refl

dynamic_restrained_lost_example :
    let r = peon_dynamic_disconn_thread 0 102 (peon_init 0) (peon_dyn_create env (task 3)) in
    (r.1 ≡ none) × ((r.0.peons PeonId.dynamic).wait_list ≡ [])
dynamic_restrained_lost_example =
    dynamic_restrained_lost 0 102 (peon_init 0) env (task 3) (omega arith) (omega arith)

abbrev numbered : World
numbered = record (first_world 0) { sys = (peon_sn_generate (peon_init 0)).0 }

abbrev asked : World
asked = added_to numbered (peon_task_add env numbered.sys connect 1 param no_driver)

-- A request takes both steps.
request_steps : requested ≡ asked.sys
unfolding peon_add_task_inner peon_init
request_steps = refl

number_given : 1 ≤ numbered.sys.task_sn
unfolding peon_sn_generate peon_init
number_given = omega arith

asked_reached : Reach (first_world 0) asked
unfolding peon_init
asked_reached =
    next (next here (generate (first_world 0) (omega arith)))
      (add env numbered connect 1 param no_driver for_connect (omega arith) number_given)

Reach-AllNumbered_example : AllNumbered asked
Reach-AllNumbered_example =
    Reach-AllNumbered {v = first_world 0} {w = asked} (first_world-AllNumbered 0) asked_reached

first_number : 1 ≡ asked.sys.task_sn
unfolding peon_task_add peon_sn_generate peon_init store PeonId-discrete
first_number = refl

latest_not_discarded_example :
    (peon_task_action_judge asked.sys type_connect (task 1)).1.discard ≡ false
latest_not_discarded_example =
    latest_not_discarded 0 asked type_connect (task 1) asked_reached first_number

abbrev five : ℕ
five = 5
