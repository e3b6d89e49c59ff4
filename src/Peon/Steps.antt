-- ===== src/Peon/Steps.antt =====
-- The serial numbers through each operation on the queues.
use nvme_snsd.Base.{
  ℕ, zero, suc, ◌+◌, ◌^◌, ◌≡◌, refl, ◌<◌, inl, inr, [], ◌∷◌, Option, none, some, arith, All-append,
  All-remove_at, All-get, get_elem?, remove_at, Status, Option-cases, if_cases, is_success,
  at_least, leb, ◌&&◌,
}
use nvme_snsd.Net.{ConnectParam}
use nvme_snsd.Peon.Task.{
  Task, Toolbox, live, PeonId, connect, recheck, Peon, System, put, peon_sn_generate,
  peon_task_restrain_timeout,
}
use nvme_snsd.Peon.Scan.{peon_task_action_judge, is_dead}
use nvme_snsd.Peon.Work.{
  AddEnv, peon_task_add, place_task, Visit, dropped, skipped, chosen, visit, start_task, get_next,
  get_from, peon_task_get, complete_task, peon_task_complete, peon_move_task_to_recheck,
  peon_move_task_to_connect, unlink, count_down, enqueue, new_task, init_ctx, is_disconn,
  is_connect, add_with_ctx, peon_dyn_disconn_worker_limit,
}
use nvme_snsd.Peon.Complete.{retried}
use nvme_snsd.Peon.Numbers.{
  NumberOk, Numbered, NumberOk-same, Numbered-mono, put-Numbered, judge-Numbered, judge-task_sn,
}

-- `list_del` and `list_add_tail` on the waiting list.
unlink-Numbered :
    (s : System) (r : PeonId) (i : ℕ)
    → Numbered s
    → Numbered (put s r (count_down (unlink (s.peons r) i)))
unlink-Numbered s r i h =
    put-Numbered s r _ (All-remove_at _ (s.peons r).wait_list i (h r).0, (h r).1) h

enqueue-Numbered :
    (s : System) (r : PeonId) (t : Task)
    → NumberOk s.task_sn r t
    → Numbered s
    → Numbered (put s r (enqueue (s.peons r) t))
enqueue-Numbered s r t ok h =
    put-Numbered s r _
      (All-append (NumberOk s.task_sn r) (s.peons r).wait_list (t ∷ []) (h r).0 (ok, tt), (h r).1) h

abbrev VisitNumbered : PeonId → Task → Visit → Type 0
VisitNumbered r p (dropped s) = Numbered s
VisitNumbered r p (skipped s) = Numbered s
VisitNumbered r p (chosen s) = NumberOk s.task_sn r p × Numbered s

visit-Numbered :
    (now : ℕ) (r : PeonId) (i : ℕ) (p : Task) (s : System)
    → NumberOk s.task_sn r p
    → Numbered s
    → VisitNumbered r p (visit now r i p s)
unfolding visit
visit-Numbered now r i p s ok h =
    if_cases (VisitNumbered r p) (is_dead p.state) (λ _. unlink-Numbered s r i h)
      λ _.
        let j = peon_task_action_judge s (s.peons r).type p in
        let h' = judge-Numbered s (s.peons r).type p h in
        if_cases (VisitNumbered r p) j.1.wait (λ _. h')
          λ _.
            if_cases (VisitNumbered r p) j.1.discard (λ _. unlink-Numbered j.0 r i h')
              λ _.
                if_cases (VisitNumbered r p)
                  (peon_task_restrain_timeout now p (j.0.peons r).restrain_time)
                  (λ _. (rw (judge-task_sn s (s.peons r).type p) ok, h')) (λ _. h')

place_task-Numbered :
    (e : AddEnv) (s : System) (r : PeonId) (t : Task)
    → NumberOk s.task_sn r t
    → Numbered s
    → Numbered (place_task e s r t).0
unfolding place_task
place_task-Numbered e s r t ok h =
    if_cases {A = System × Status × Option Peon} (λ x. Numbered x.0)
      (is_disconn (s.peons r).type
        && (at_least (s.peons r).worker_all_count (s.peons r).worker_num
            && (leb s.dyn_worker_num peon_dyn_disconn_worker_limit && e.dyn_ok)))
      (λ _. h)
      (λ _.
        put-Numbered s r _
          (
            All-append (NumberOk s.task_sn r) (s.peons r).wait_list (t ∷ []) (h r).0 (ok, tt),
            (h r).1,
          )
          h)

add_with_ctx-Numbered :
    (e : AddEnv) (s : System) (r : PeonId) (sn : ℕ) (param : ConnectParam) (toolbox : Toolbox)
    → ((ctx : Option ℕ) → NumberOk s.task_sn r (new_task e sn param toolbox ctx))
    → Numbered s
    → (o : Option (Option ℕ)) → Numbered (add_with_ctx e s r sn param toolbox o).0
unfolding add_with_ctx
add_with_ctx-Numbered e s r sn param toolbox ok h none = h
add_with_ctx-Numbered e s r sn param toolbox ok h (some ctx) =
    place_task-Numbered e s r _ (ok ctx) h

pub add-Numbered :
    (e : AddEnv) (s : System) (r : PeonId) (sn : ℕ) (param : ConnectParam) (toolbox : Toolbox)
    → ((ctx : Option ℕ) → NumberOk s.task_sn r (new_task e sn param toolbox ctx))
    → Numbered s
    → Numbered (peon_task_add e s r sn param toolbox).0
unfolding peon_task_add
add-Numbered e s r sn param toolbox ok h =
    if_cases {A = System × Status × Option Peon} (λ x. Numbered x.0) e.alloc_ok
      (λ _. add_with_ctx-Numbered e s r sn param toolbox ok h (init_ctx e sn param toolbox))
      (λ _. h)

to_recheck-Numbered :
    (s : System) (t : Task) → Numbered s → Numbered (peon_move_task_to_recheck s t)
unfolding peon_move_task_to_recheck
to_recheck-Numbered s t h = enqueue-Numbered s recheck (record t { sn = 0 }) refl h

complete_task-Numbered :
    (now : ℕ) (r : PeonId) (i : ℕ) (t : Task) (result : Status) (s : System)
    → NumberOk s.task_sn r t
    → Numbered s
    → Numbered (complete_task now r i t result s)
unfolding complete_task put
complete_task-Numbered now r i t result s ok h =
    let s' =
      put s r (count_down (record (s.peons r) { proc_list = remove_at (s.peons r).proc_list i })) in
    let h' : Numbered s' =
      put-Numbered s r _
        ((h r).0, All-remove_at (NumberOk s.task_sn r) (s.peons r).proc_list i (h r).1) h in
    if_cases Numbered (is_dead t.state) (λ _. h')
      λ _.
        if_cases Numbered (is_success result)
          (λ _.
            if_cases Numbered (is_connect (s.peons r).type) (λ _. to_recheck-Numbered s' t h')
              (λ _. h'))
          (λ _.
            enqueue-Numbered s' r (retried now t)
              (NumberOk-same s.task_sn r t (retried now t) refl ok) h')

pub complete-Numbered :
    (now : ℕ) (r : PeonId) (i : ℕ) (result : Status) (s : System)
    → Numbered s
    → Numbered (peon_task_complete now r i result s)
unfolding peon_task_complete
complete-Numbered now r i result s h = elim (Option-cases (get_elem? (s.peons r).proc_list i)) [
  | inl e ↦ rw (e, peon_task_complete) h
  | inr (t, e) ↦
      rw (e, peon_task_complete)
        (complete_task-Numbered now r i t result s
          (All-get (NumberOk s.task_sn r) (s.peons r).proc_list i (h r).1 e) h)
]

get_next-Numbered :
    (r : PeonId) (i : ℕ) (p : Task) (again : ℕ → System → System × Option Task)
    → ((j : ℕ) (u : System) → Numbered u → Numbered (again j u).0)
    → (v : Visit) → VisitNumbered r p v
    → Numbered (get_next again r i p v).0
unfolding get_next start_task
get_next-Numbered r i p again f (dropped u) h = f i u h
get_next-Numbered r i p again f (skipped u) h = f (suc i) u h
get_next-Numbered r i p again f (chosen u) h =
    put-Numbered u r _
      (
        All-remove_at (NumberOk u.task_sn r) (u.peons r).wait_list i (h.1 r).0,
        All-append (NumberOk u.task_sn r) (u.peons r).proc_list (p ∷ []) (h.1 r).1 (h.0, tt),
      )
      h.1

get_from-Numbered :
    (fuel now : ℕ) (r : PeonId) (i : ℕ) (s : System)
    → Numbered s
    → Numbered (get_from fuel now r i s).0
unfolding get_from
get_from-Numbered zero now r i s h = h
get_from-Numbered (suc fuel) now r i s h = elim (Option-cases (get_elem? (s.peons r).wait_list i)) [
  | inl e ↦ rw (e, get_from) h
  | inr (p, e) ↦
      rw (e, get_from)
        (get_next-Numbered r i p (get_from fuel now r) (λ j u. get_from-Numbered fuel now r j u)
          (visit now r i p s)
          (visit-Numbered now r i p s
            (All-get (NumberOk s.task_sn r) (s.peons r).wait_list i (h r).0 e) h))
]

pub get-Numbered :
    (now : ℕ) (r : PeonId) (s : System) → Numbered s → Numbered (peon_task_get now r s).0
unfolding peon_task_get
get-Numbered now r s h = get_from-Numbered _ now r 0 s h

-- The generator gives out a positive number that no task has yet.
pub generate-next :
    (s : System)
    → s.task_sn + 1 < 2 ^ 64
    → peon_sn_generate s ≡ (record s { task_sn = s.task_sn + 1 }, s.task_sn + 1)
unfolding peon_sn_generate
generate-next s h = ground arith

pub to_connect-Numbered :
    (now : ℕ) (s : System) (t : Task)
    → s.task_sn + 1 < 2 ^ 64
    → Numbered s
    → Numbered (peon_move_task_to_connect now s t)
unfolding peon_move_task_to_connect
to_connect-Numbered now s t fits h = rw (generate-next s fits) (
    enqueue-Numbered (record s { task_sn = s.task_sn + 1 }) connect
      (record t { tm = now; next_run = 0; sn = s.task_sn + 1; state = live })
      (omega arith, omega arith) (Numbered-mono s (s.task_sn + 1) (omega arith) h))
