-- ===== src/Peon/Get.antt =====
-- What `peon_task_get` guarantees of the task that it hands to a worker.
use nvme_snsd.Base.{
  ℕ, zero, suc, ◌≡◌, refl, ap, sym, ◌∙◌, inl, inr, subst, true, false, List, [], ◌∷◌, ◌++◌, Option,
  none, some, arith, All-append, All-remove_at, get_elem?, if_cases, length, Option-cases,
}
use nvme_snsd.Peon.Task.{
  Task, live, PeonId, PeonType, Peon, System, put, put_cases, put_hit, peon_task_restrain_timeout,
}
use nvme_snsd.Peon.Scan.{
  Scan, Queue, is_dead, waiting, running, schedule, tasks_of, with_tasks, run_scan, run_scans,
  peon_task_action_judge,
}
use nvme_snsd.Peon.Conflict.{Settled, AllSettled, queue, judge-Settled}
use nvme_snsd.Peon.Work.{
  Visit, dropped, skipped, chosen, visit, start_task, get_next, get_from, peon_task_get, unlink,
}

-- `peons[q]->type` is a constant.
abbrev pub SameTypes : System → System → Type 0
SameTypes s s' = (q : PeonId) → (s'.peons q).type ≡ (s.peons q).type

pub put-SameTypes :
    (s : System) (r : PeonId) (pe : Peon) → pe.type ≡ (s.peons r).type → SameTypes s (put s r pe)
put-SameTypes s r pe h q =
    put_cases (λ x. x.type ≡ (s.peons q).type) s r q pe (λ e. h ∙ ap (λ x. (s.peons x).type) e)
      (λ _. refl)

-- A field of the peons that no list changes.
module _ {A : Type 0} (f : Peon → A)
    (h : (k : Queue) (pe : Peon) (l : List Task) → f (with_tasks k pe l) ≡ f pe) where
  run_scans_field :
      (s : System) (task : Task) (cs : List Scan) (q : PeonId)
      → f ((run_scans s task cs).0.peons q) ≡ f (s.peons q)
  unfolding run_scans run_scan
  run_scans_field s task [] q = refl
  run_scans_field s task (c ∷ cs) q =
      run_scans_field (run_scan s task c).0 task cs q
      ∙ put_cases (λ x. f x ≡ f (s.peons q)) s c.peon q _
          (λ e. h c.queue (s.peons c.peon) _ ∙ ap (λ x. f (s.peons x)) e) (λ _. refl)

with_tasks-type : (k : Queue) (pe : Peon) (l : List Task) → (with_tasks k pe l).type ≡ pe.type
with_tasks-type waiting pe l = refl
with_tasks-type running pe l = refl

with_tasks-restrain_time :
    (k : Queue) (pe : Peon) (l : List Task) → (with_tasks k pe l).restrain_time ≡ pe.restrain_time
with_tasks-restrain_time waiting pe l = refl
with_tasks-restrain_time running pe l = refl

pub judge-SameTypes :
    (s : System) (type : PeonType) (task : Task)
    → SameTypes s (peon_task_action_judge s type task).0
unfolding peon_task_action_judge
judge-SameTypes s type task = run_scans_field (λ pe. pe.type) with_tasks-type s task (schedule type)

pub judge-restrain_time :
    (s : System) (type : PeonType) (task : Task) (q : PeonId)
    → ((peon_task_action_judge s type task).0.peons q).restrain_time ≡ (s.peons q).restrain_time
unfolding peon_task_action_judge
judge-restrain_time s type task =
    run_scans_field (λ pe. pe.restrain_time) with_tasks-restrain_time s task (schedule type)

-- A task that is not due is not chosen.
abbrev NotChosen : Visit → Type 0
NotChosen (dropped s) = Unit {0}
NotChosen (skipped s) = Unit {0}
NotChosen (chosen s) = ⊥

visit-NotChosen :
    (now : ℕ) (r : PeonId) (i : ℕ) (p : Task) (s : System)
    → peon_task_restrain_timeout now p (s.peons r).restrain_time ≡ false
    → NotChosen (visit now r i p s)
unfolding visit
visit-NotChosen now r i p s late =
    let j = peon_task_action_judge s (s.peons r).type p in
    let same = judge-restrain_time s (s.peons r).type p r in
    if_cases NotChosen (is_dead p.state) (λ _. tt)
      λ _.
        if_cases NotChosen j.1.wait (λ _. tt)
          λ _.
            if_cases NotChosen j.1.discard (λ _. tt)
              λ _.
                if_cases NotChosen (peon_task_restrain_timeout now p (j.0.peons r).restrain_time)
                  (λ due. cc (ap (peon_task_restrain_timeout now p) same)) (λ _. tt)

get_next-none :
    (r : PeonId) (i : ℕ) (p : Task) (again : ℕ → System → System × Option Task)
    → ((j : ℕ) (u : System) → (again j u).1 ≡ none)
    → (v : Visit) → NotChosen v
    → (get_next again r i p v).1 ≡ none
unfolding get_next
get_next-none r i p again h (dropped u) k = h i u
get_next-none r i p again h (skipped u) k = h (suc i) u
get_next-none r i p again h (chosen u) k = absurd k

get_from_one-none :
    (now : ℕ) (r : PeonId) (s : System) (t : Task)
    → get_elem? (s.peons r).wait_list 0 ≡ some t
    → peon_task_restrain_timeout now t (s.peons r).restrain_time ≡ false
    → (get_from 1 now r 0 s).1 ≡ none
unfolding get_from
get_from_one-none now r s t e late =
    rw (e, get_from)
      (get_next-none r 0 t (λ i u. (u, none)) (λ j u. refl) (visit now r 0 t s)
        (visit-NotChosen now r 0 t s late))

-- If its only waiting task is not due, a peon has no task to hand out.
pub peon_task_get-none :
    (now : ℕ) (r : PeonId) (s : System) (t : Task)
    → (s.peons r).wait_list ≡ t ∷ []
    → peon_task_restrain_timeout now t (s.peons r).restrain_time ≡ false
    → (peon_task_get now r s).1 ≡ none
unfolding peon_task_get
peon_task_get-none now r s t only late =
    rw (ap length only) (get_from_one-none now r s t (ap (λ l. get_elem? l 0) only) late)

-- What holds when the loop chooses the task `p` of the peon `r`, in the state `s'`.
pub record IsChosen (now : ℕ) (type : PeonType) (r : PeonId) (p : Task) (s' : System) : Type 0 where
  pub alive : p.state ≡ live
  pub due : peon_task_restrain_timeout now p (s'.peons r).restrain_time ≡ true
  pub settled : AllSettled s' p (schedule type)

abbrev pub VisitOk : ℕ → PeonId → Task → System → Visit → Type 0
VisitOk now r p s (dropped s') = SameTypes s s'
VisitOk now r p s (skipped s') = SameTypes s s'
VisitOk now r p s (chosen s') = SameTypes s s' × IsChosen now (s.peons r).type r p s'

visit-VisitOk :
    (now : ℕ) (r : PeonId) (i : ℕ) (p : Task) (s : System) → VisitOk now r p s (visit now r i p s)
unfolding visit
visit-VisitOk now r i p s =
    if_cases (VisitOk now r p s) (is_dead p.state) (λ _. put-SameTypes s r _ refl)
      λ alive.
        let j = peon_task_action_judge s (s.peons r).type p in
        let same = judge-SameTypes s (s.peons r).type p in
        if_cases (VisitOk now r p s) j.1.wait (λ _. same)
          λ _.
            if_cases (VisitOk now r p s) j.1.discard (λ _ q. put-SameTypes j.0 r _ refl q ∙ same q)
              λ calm.
                if_cases (VisitOk now r p s)
                  (peon_task_restrain_timeout now p (j.0.peons r).restrain_time)
                  (λ due. (
                    same,
                    record {
                      alive = ground arith;
                      due = due;
                      settled = judge-Settled s (s.peons r).type p calm;
                    },
                  ))
                  (λ _. same)

-- The chosen task is the last running task, and the rest of the state is that of the choice.
start_task-SameTypes :
    (r : PeonId) (i : ℕ) (p : Task) (s : System) → SameTypes s (start_task r i p s)
unfolding start_task
start_task-SameTypes r i p s = put-SameTypes s r _ refl

start_task-AllSettled :
    (r : PeonId) (i : ℕ) (p : Task) (s : System) (cs : List Scan)
    → AllSettled s p cs
    → AllSettled (start_task r i p s) p cs
unfolding start_task
start_task-AllSettled r i p s [] h = tt
start_task-AllSettled r i p s (c ∷ cs) h = (
  put_cases (λ pe. Settled p c.isbatch (tasks_of c.queue pe)) s r c.peon _
      (λ e. moved c.queue (subst (λ x. Settled p c.isbatch (queue s x c.queue)) (sym e) h.0))
      (λ _. h.0),
  start_task-AllSettled r i p s cs h.1,
)
  where
    moved :
        (k : Queue)
        → Settled p c.isbatch (tasks_of k (s.peons r))
        → Settled p c.isbatch (
            tasks_of k
              (record (unlink (s.peons r) i) { proc_list = (s.peons r).proc_list ++ p ∷ [] }))
    moved waiting w = All-remove_at _ (s.peons r).wait_list i w
    moved running w = All-append _ (s.peons r).proc_list (p ∷ []) w ((λ _ _. refl), tt)

-- What holds when `peon_task_get` of the peon `r`, called in the state `s`, hands out the task `t`
-- and leaves the state `s'`.
pub record IsStarted (now : ℕ) (r : PeonId) (s : System) (t : Task) (s' : System) : Type 0 where
  -- It is alive, and its restrain time is over.
  pub alive : t.state ≡ live
  pub due : peon_task_restrain_timeout now t (s'.peons r).restrain_time ≡ true
  -- It is the last running task.
  pub before : List Task
  pub is_running : (s'.peons r).proc_list ≡ before ++ t ∷ []
  -- In all lists that a task of this type is checked against, no live task for the same device has
  -- another serial number.
  pub settled : AllSettled s' t (schedule (s.peons r).type)

abbrev GetOk : ℕ → PeonId → System → System × Option Task → Type 0
GetOk now r s (s', none) = SameTypes s s'
GetOk now r s (s', some t) = SameTypes s s' × IsStarted now r s t s'

GetOk-later :
    (now : ℕ) (r : PeonId) (s s' : System) (o : System × Option Task)
    → SameTypes s s'
    → GetOk now r s' o
    → GetOk now r s o
GetOk-later now r s s' (u, none) h g = λ q. g q ∙ h q
GetOk-later now r s s' (u, some t) h g = (
  (λ q. g.0 q ∙ h q),
  record {
    alive = g.1.alive;
    due = g.1.due;
    before = g.1.before;
    is_running = g.1.is_running;
    settled = subst (λ x. AllSettled u t (schedule x)) (h r) g.1.settled;
  },
)

start_task-IsStarted :
    (now : ℕ) (r : PeonId) (i : ℕ) (p : Task) (s s' : System)
    → IsChosen now (s.peons r).type r p s'
    → IsStarted now r s p (start_task r i p s')
start_task-IsStarted now r i p s s' c = record {
  alive = c.alive;
  due = unfold start_task in rw (put_hit s' {r = r} {q = r} _ refl) c.due;
  before = (s'.peons r).proc_list;
  is_running = unfold start_task in rw (put_hit s' {r = r} {q = r} _ refl);
  settled = start_task-AllSettled r i p s' (schedule (s.peons r).type) c.settled;
}

get_next-GetOk :
    (now : ℕ) (r : PeonId) (i : ℕ) (p : Task) (s : System)
    → (again : ℕ → System → System × Option Task)
    → ((j : ℕ) (u : System) → GetOk now r u (again j u))
    → (v : Visit) → VisitOk now r p s v
    → GetOk now r s (get_next again r i p v)
unfolding get_next
get_next-GetOk now r i p s again h (dropped u) k = GetOk-later now r s u (again i u) k (h i u)
get_next-GetOk now r i p s again h (skipped u) k =
    GetOk-later now r s u (again (suc i) u) k (h (suc i) u)
get_next-GetOk now r i p s again h (chosen u) k =
    ((λ q. start_task-SameTypes r i p u q ∙ k.0 q), start_task-IsStarted now r i p s u k.1)

get_from-GetOk :
    (fuel now : ℕ) (r : PeonId) (i : ℕ) (s : System) → GetOk now r s (get_from fuel now r i s)
unfolding get_from
get_from-GetOk zero now r i s = λ q. refl
get_from-GetOk (suc fuel) now r i s = elim (Option-cases (get_elem? (s.peons r).wait_list i)) [
  | inl e ↦ rw (e, get_from) (λ q. refl)
  | inr (p, e) ↦
      rw (e, get_from)
        (get_next-GetOk now r i p s (get_from fuel now r) (λ j u. get_from-GetOk fuel now r j u)
          (visit now r i p s) (visit-VisitOk now r i p s))
]

-- A task that `peon_task_get` hands to a worker is alive, due and now running, and every live task
-- for the same device, in all the lists that its type is checked against, carries its own serial
-- number: the older ones have been marked dead, and there is no newer one.
pub peon_task_get-IsStarted :
    (now : ℕ) (r : PeonId) (s s' : System) (t : Task)
    → peon_task_get now r s ≡ (s', some t)
    → IsStarted now r s t s'
unfolding peon_task_get
peon_task_get-IsStarted now r s s' t e = (subst (GetOk now r s) e (get_from-GetOk _ now r 0 s)).1
