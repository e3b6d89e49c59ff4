-- ===== src/Peon/Serial.antt =====
-- The generator of the serial numbers goes on only where a number is given out.
use nvme_snsd.Base.{
  ℕ, zero, suc, ◌≡◌, refl, ◌∙◌, ◌<◌, inl, inr, Option, none, some, get_elem?, Status, Option-cases,
  if_cases, is_success, at_least, leb, ◌&&◌, ◌≤◌,
}
use nvme_snsd.Net.{ConnectParam}
use nvme_snsd.Peon.Task.{
  Task, Toolbox, PeonId, dynamic, Peon, System, put, peon_task_restrain_timeout,
}
use nvme_snsd.Peon.Scan.{peon_task_action_judge, is_dead}
use nvme_snsd.Peon.Work.{
  AddEnv, peon_task_add, place_task, peon_dyn_create, Visit, dropped, skipped, chosen, visit,
  start_task, get_next, get_from, peon_task_get, complete_task, peon_task_complete,
  peon_move_task_to_recheck, new_task, init_ctx, is_disconn, is_connect, add_with_ctx,
  peon_dyn_disconn_worker_limit,
}
use nvme_snsd.Peon.Numbers.{PeonOk, judge-task_sn}

abbrev SameSn : System → Visit → Type 0
SameSn s (dropped u) = u.task_sn ≡ s.task_sn
SameSn s (skipped u) = u.task_sn ≡ s.task_sn
SameSn s (chosen u) = u.task_sn ≡ s.task_sn

visit-SameSn : (now : ℕ) (r : PeonId) (i : ℕ) (p : Task) (s : System) → SameSn s (visit now r i p s)
unfolding visit put
visit-SameSn now r i p s =
    if_cases (SameSn s) (is_dead p.state) (λ _. refl)
      λ _.
        let j = peon_task_action_judge s (s.peons r).type p in
        let e = judge-task_sn s (s.peons r).type p in
        if_cases (SameSn s) j.1.wait (λ _. e)
          λ _.
            if_cases (SameSn s) j.1.discard (λ _. e)
              λ _.
                if_cases (SameSn s) (peon_task_restrain_timeout now p (j.0.peons r).restrain_time)
                  (λ _. e) (λ _. e)

get_next-task_sn :
    (s : System) (r : PeonId) (i : ℕ) (p : Task) (again : ℕ → System → System × Option Task)
    → ((j : ℕ) (u : System) → (again j u).0.task_sn ≡ u.task_sn)
    → (v : Visit) → SameSn s v
    → (get_next again r i p v).0.task_sn ≡ s.task_sn
unfolding get_next start_task put
get_next-task_sn s r i p again f (dropped u) e = f i u ∙ e
get_next-task_sn s r i p again f (skipped u) e = f (suc i) u ∙ e
get_next-task_sn s r i p again f (chosen u) e = e

get_from-task_sn :
    (fuel now : ℕ) (r : PeonId) (i : ℕ) (s : System)
    → (get_from fuel now r i s).0.task_sn ≡ s.task_sn
unfolding get_from
get_from-task_sn zero now r i s = refl
get_from-task_sn (suc fuel) now r i s = elim (Option-cases (get_elem? (s.peons r).wait_list i)) [
  | inl e ↦ rw (e, get_from) refl
  | inr (p, e) ↦
      rw (e, get_from)
        (get_next-task_sn s r i p (get_from fuel now r) (get_from-task_sn fuel now r)
          (visit now r i p s) (visit-SameSn now r i p s))
]

pub get-task_sn :
    (now : ℕ) (r : PeonId) (s : System) → (peon_task_get now r s).0.task_sn ≡ s.task_sn
unfolding peon_task_get
get-task_sn now r s = get_from-task_sn _ now r 0 s

complete_task-task_sn :
    (now : ℕ) (r : PeonId) (i : ℕ) (t : Task) (result : Status) (s : System)
    → (complete_task now r i t result s).task_sn ≡ s.task_sn
unfolding complete_task put peon_move_task_to_recheck
complete_task-task_sn now r i t result s =
    if_cases (λ (u : System). u.task_sn ≡ s.task_sn) (is_dead t.state) (λ _. refl)
      λ _.
        if_cases (λ (u : System). u.task_sn ≡ s.task_sn) (is_success result)
          (λ _.
            if_cases (λ (u : System). u.task_sn ≡ s.task_sn) (is_connect (s.peons r).type)
              (λ _. refl) (λ _. refl))
          (λ _. refl)

pub complete-task_sn :
    (now : ℕ) (r : PeonId) (i : ℕ) (result : Status) (s : System)
    → (peon_task_complete now r i result s).task_sn ≡ s.task_sn
unfolding peon_task_complete
complete-task_sn now r i result s = elim (Option-cases (get_elem? (s.peons r).proc_list i)) [
  | inl e ↦ rw (e, peon_task_complete) refl
  | inr (t, e) ↦ rw (e, peon_task_complete) (complete_task-task_sn now r i t result s)
]

-- What an addition leaves of the generator, and the peon of the worker that it may start.
abbrev pub NewOk : ℕ → System × Status × Option Peon → Type 0
NewOk top (s, result, none) = s.task_sn ≡ top
NewOk top (s, result, some pe) = (s.task_sn ≡ top) × PeonOk top dynamic pe

place_task-NewOk :
    (e : AddEnv) (s : System) (r : PeonId) (t : Task)
    → 0 < t.sn
    → t.sn ≤ s.task_sn
    → NewOk s.task_sn (place_task e s r t)
unfolding place_task put peon_dyn_create
place_task-NewOk e s r t positive le =
    if_cases {A = System × Status × Option Peon} (NewOk s.task_sn)
      (is_disconn (s.peons r).type
        && (at_least (s.peons r).worker_all_count (s.peons r).worker_num
            && (leb s.dyn_worker_num peon_dyn_disconn_worker_limit && e.dyn_ok)))
      (λ _. (refl, (((positive, le), tt), tt))) (λ _. refl)

add_with_ctx-NewOk :
    (e : AddEnv) (s : System) (r : PeonId) (sn : ℕ) (param : ConnectParam) (toolbox : Toolbox)
    → 0 < sn
    → sn ≤ s.task_sn
    → (o : Option (Option ℕ)) → NewOk s.task_sn (add_with_ctx e s r sn param toolbox o)
unfolding add_with_ctx
add_with_ctx-NewOk e s r sn param toolbox positive le none = refl
add_with_ctx-NewOk e s r sn param toolbox positive le (some ctx) =
    place_task-NewOk e s r (new_task e sn param toolbox ctx) positive le

pub add-NewOk :
    (e : AddEnv) (s : System) (r : PeonId) (sn : ℕ) (param : ConnectParam) (toolbox : Toolbox)
    → 0 < sn
    → sn ≤ s.task_sn
    → NewOk s.task_sn (peon_task_add e s r sn param toolbox)
unfolding peon_task_add
add-NewOk e s r sn param toolbox positive le =
    if_cases {A = System × Status × Option Peon} (NewOk s.task_sn) e.alloc_ok
      (λ _. add_with_ctx-NewOk e s r sn param toolbox positive le (init_ctx e sn param toolbox))
      (λ _. refl)
