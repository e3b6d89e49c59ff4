-- ===== src/Peon/Numbers.antt =====
-- Serial numbers: which ones the queues hold, after any interleaving of the workers' passes.
use nvme_snsd.Base.{
  ℕ, ◌≡◌, refl, sym, subst, ◌≤◌, ◌<◌, ◌⊎◌, inl, inr, List, [], ◌∷◌, arith, All, All-map_pred,
}
use nvme_snsd.Peon.Task.{
  Task, dead, PeonId, PeonType, connect, disconn, dcbatch, recheck, dynamic, Peon, System, put,
  put_cases,
}
use nvme_snsd.Peon.Scan.{
  Scan, waiting, running, run_scan, run_scans, schedule, peon_task_action_judge,
}
use nvme_snsd.Peon.Conflict.{Fades, run_scans-Fades}

-- On the recheck list the number is 0, elsewhere it is one that the generator has given out.
abbrev pub NumberOk : ℕ → PeonId → Task → Type 0
NumberOk top recheck t = t.sn ≡ 0
NumberOk top connect t = (0 < t.sn) × (t.sn ≤ top)
NumberOk top disconn t = (0 < t.sn) × (t.sn ≤ top)
NumberOk top dcbatch t = (0 < t.sn) × (t.sn ≤ top)
NumberOk top dynamic t = (0 < t.sn) × (t.sn ≤ top)

abbrev pub PeonOk : ℕ → PeonId → Peon → Type 0
PeonOk top q pe = All (NumberOk top q) pe.wait_list × All (NumberOk top q) pe.proc_list

abbrev pub Numbered : System → Type 0
Numbered s = (q : PeonId) → PeonOk s.task_sn q (s.peons q)

pub NumberOk-le : (top : ℕ) (q : PeonId) (t : Task) → NumberOk top q t → t.sn ≤ top
NumberOk-le top recheck t h = omega arith
NumberOk-le top connect t h = h.1
NumberOk-le top disconn t h = h.1
NumberOk-le top dcbatch t h = h.1
NumberOk-le top dynamic t h = h.1

NumberOk-dead :
    (top : ℕ) (q : PeonId) (t : Task)
    → NumberOk top q t
    → NumberOk top q (record t { state = dead })
NumberOk-dead top recheck t h = h
NumberOk-dead top connect t h = h
NumberOk-dead top disconn t h = h
NumberOk-dead top dcbatch t h = h
NumberOk-dead top dynamic t h = h

pub NumberOk-mono :
    (top top' : ℕ) (q : PeonId) → top ≤ top' → (t : Task) → NumberOk top q t → NumberOk top' q t
NumberOk-mono top top' recheck le t h = h
NumberOk-mono top top' connect le t h = (h.0, omega arith)
NumberOk-mono top top' disconn le t h = (h.0, omega arith)
NumberOk-mono top top' dcbatch le t h = (h.0, omega arith)
NumberOk-mono top top' dynamic le t h = (h.0, omega arith)

-- Setting `next_run` leaves the number.
pub NumberOk-same :
    (top : ℕ) (q : PeonId) (t u : Task) → u.sn ≡ t.sn → NumberOk top q t → NumberOk top q u
NumberOk-same top recheck t u e h = omega arith
NumberOk-same top connect t u e h = omega arith
NumberOk-same top disconn t u e h = omega arith
NumberOk-same top dcbatch t u e h = omega arith
NumberOk-same top dynamic t u e h = omega arith

Fades-All :
    (top : ℕ) (q : PeonId) (l m : List Task)
    → Fades l m
    → All (NumberOk top q) l
    → All (NumberOk top q) m
Fades-All top q [] [] f h = tt
Fades-All top q [] (_ ∷ _) f h = absurd f
Fades-All top q (_ ∷ _) [] f h = absurd f
Fades-All top q (x ∷ xs) (y ∷ ys) f h = (kept f.0, Fades-All top q xs ys f.1 h.1)
  where
    kept : ((y ≡ x) ⊎ (y ≡ record x { state = dead })) → NumberOk top q y
    kept (inl e) = subst (NumberOk top q) (sym e) h.0
    kept (inr e) = subst (NumberOk top q) (sym e) (NumberOk-dead top q x h.0)

pub Numbered-mono :
    (s : System) (top : ℕ) → s.task_sn ≤ top → Numbered s → Numbered (record s { task_sn = top })
Numbered-mono s top le h q = (
  All-map_pred (NumberOk s.task_sn q) (NumberOk top q) (NumberOk-mono s.task_sn top q le)
      (s.peons q).wait_list (h q).0,
  All-map_pred (NumberOk s.task_sn q) (NumberOk top q) (NumberOk-mono s.task_sn top q le)
      (s.peons q).proc_list (h q).1,
)

pub put-Numbered :
    (s : System) (r : PeonId) (pe : Peon)
    → PeonOk s.task_sn r pe
    → Numbered s
    → Numbered (put s r pe)
unfolding put
put-Numbered s r pe ok h q =
    put_cases (PeonOk s.task_sn q) s r q pe (λ e. subst (λ x. PeonOk s.task_sn x pe) e ok)
      (λ _. h q)

run_scans-task_sn :
    (s : System) (task : Task) (cs : List Scan) → (run_scans s task cs).0.task_sn ≡ s.task_sn
unfolding run_scans run_scan put
run_scans-task_sn s task [] = refl
run_scans-task_sn s task (c ∷ cs) = run_scans-task_sn (run_scan s task c).0 task cs

pub judge-Numbered :
    (s : System) (type : PeonType) (task : Task)
    → Numbered s
    → Numbered (peon_task_action_judge s type task).0
unfolding peon_task_action_judge
judge-Numbered s type task h q =
    let cs = schedule type in
    rw (run_scans-task_sn s task cs) (
      (
        Fades-All s.task_sn q _ _ (run_scans-Fades s task cs q waiting) (h q).0,
        Fades-All s.task_sn q _ _ (run_scans-Fades s task cs q running) (h q).1,
      ))

pub judge-task_sn :
    (s : System) (type : PeonType) (task : Task)
    → (peon_task_action_judge s type task).0.task_sn ≡ s.task_sn
unfolding peon_task_action_judge
judge-task_sn s type task = run_scans-task_sn s task (schedule type)
