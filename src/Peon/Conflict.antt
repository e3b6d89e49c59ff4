-- ===== src/Peon/Conflict.antt =====
-- What the scans of `peon_task_action_judge` settle: which tasks for the same device are left alive.
use nvme_snsd.Base.{
  ℕ, ◌≡◌, refl, subst, ◌≤◌, ◌⊎◌, inl, inr, Bool, true, false, List, [], ◌∷◌, arith, All, if_pos,
  if_neg,
}
use nvme_snsd.Peon.Task.{
  Task, live, dead, PeonId, PeonId-discrete, PeonType, Peon, System, put, store, peon_task_match,
}
use nvme_snsd.Peon.Scan.{
  Scan, Queue, waiting, running, scan_one, peon_task_scan_list, run_scan, run_scans, schedule,
  tasks_of, with_tasks, peon_task_action_judge,
}

-- Every live entry for the same device has a serial number that meets `G`.
abbrev pub Guarded : (ℕ → Type 0) → Task → Bool → Task → Type 0
Guarded G task isbatch p = p.state ≡ live → peon_task_match p task isbatch ≡ true → G p.sn

-- No live task for the same device is left but those with the task's own number.
abbrev pub Settled : Task → Bool → List Task → Type 0
Settled task isbatch = All (Guarded (λ n. n ≡ task.sn) task isbatch)

-- No live task for the same device is older.
abbrev pub NoOlder : Task → Bool → List Task → Type 0
NoOlder task isbatch = All (Guarded (λ n. task.sn ≤ n) task isbatch)

-- A scan does no more to an entry than to mark it dead.
abbrev pub Fades : List Task → List Task → Type 0
Fades [] [] = Unit {0}
Fades [] (q ∷ qs) = ⊥
Fades (p ∷ ps) [] = ⊥
Fades (p ∷ ps) (q ∷ qs) = ((q ≡ p) ⊎ (q ≡ record p { state = dead })) × Fades ps qs

Fades-refl : (l : List Task) → Fades l l
Fades-refl [] = tt
Fades-refl (p ∷ ps) = (inl refl, Fades-refl ps)

Fades-trans : (l m n : List Task) → Fades l m → Fades m n → Fades l n
Fades-trans [] [] [] f g = tt
Fades-trans [] [] (_ ∷ _) f g = g
Fades-trans [] (_ ∷ _) n f g = absurd f
Fades-trans (_ ∷ _) [] n f g = absurd f
Fades-trans (_ ∷ _) (_ ∷ _) [] f g = absurd g
Fades-trans (p ∷ ps) (q ∷ qs) (r ∷ rs) f g = (ground arith, Fades-trans ps qs rs f.1 g.1)

pub Fades-Guarded :
    (G : ℕ → Type 0) (task : Task) (b : Bool) (l m : List Task)
    → Fades l m
    → All (Guarded G task b) l
    → All (Guarded G task b) m
Fades-Guarded G task b [] [] f h = tt
Fades-Guarded G task b [] (_ ∷ _) f h = absurd f
Fades-Guarded G task b (_ ∷ _) [] f h = absurd f
Fades-Guarded G task b (p ∷ ps) (q ∷ qs) f h = (kept f.0, Fades-Guarded G task b ps qs f.1 h.1)
  where
    kept : ((q ≡ p) ⊎ (q ≡ record p { state = dead })) → Guarded G task b q
    kept (inl e) = rw e h.0
    kept (inr e) = rw e (λ l. cc)

scan_list-Fades :
    (l : List Task) (task : Task) (b w : Bool) → Fades l (peon_task_scan_list l task b w).0
unfolding peon_task_scan_list
scan_list-Fades [] task b w = tt
scan_list-Fades (p ∷ ps) task b w = (ground arith, scan_list-Fades ps task b w)

-- An entry that no newer task hides: if it raises no discard flag, it is settled.
scan_one-Settled :
    (p task : Task) (b w : Bool)
    → (scan_one p task b w).1.discard ≡ false
    → Guarded (λ n. n ≡ task.sn) task b (scan_one p task b w).0
unfolding scan_one
scan_one-Settled p task b w h = ground arith

scan_one-NoOlder :
    (p task : Task) (b w : Bool) → Guarded (λ n. task.sn ≤ n) task b (scan_one p task b w).0
unfolding scan_one
scan_one-NoOlder p task b w = ground arith

scan_one_calm :
    (p task : Task) (b w : Bool)
    → Guarded (λ n. task.sn ≤ n) task b p
    → (scan_one p task b w).1.wait ≡ false
unfolding scan_one
scan_one_calm p task b w h = ground arith

pub scan_list-Settled :
    (l : List Task) (task : Task) (b w : Bool)
    → (peon_task_scan_list l task b w).1.discard ≡ false
    → Settled task b (peon_task_scan_list l task b w).0
unfolding peon_task_scan_list
scan_list-Settled [] task b w h = tt
scan_list-Settled (p ∷ ps) task b w h =
    (scan_one-Settled p task b w (ground arith), scan_list-Settled ps task b w (ground arith))

pub scan_list-NoOlder :
    (l : List Task) (task : Task) (b w : Bool) → NoOlder task b (peon_task_scan_list l task b w).0
unfolding peon_task_scan_list
scan_list-NoOlder [] task b w = tt
scan_list-NoOlder (p ∷ ps) task b w = (scan_one-NoOlder p task b w, scan_list-NoOlder ps task b w)

scan_list_calm :
    (l : List Task) (task : Task) (b w : Bool)
    → NoOlder task b l
    → (peon_task_scan_list l task b w).1.wait ≡ false
unfolding peon_task_scan_list
scan_list_calm [] task b w h = refl
scan_list_calm (p ∷ ps) task b w h =
    ground (arith, scan_one_calm p task b w h.0, scan_list_calm ps task b w h.1)

abbrev pub queue : System → PeonId → Queue → List Task
queue s r k = tasks_of k (s.peons r)

-- The peon that a scan goes over, after it.
abbrev scanned : System → Task → Scan → Peon
scanned s task c =
    with_tasks c.queue (s.peons c.peon)
      (peon_task_scan_list (queue s c.peon c.queue) task c.isbatch c.iswait).0

-- A scan leaves every queue as it was, but for entries that it marks dead.
pub run_scan-Fades :
    (s : System) (task : Task) (c : Scan) (r : PeonId) (k : Queue)
    → Fades (queue s r k) (queue (run_scan s task c).0 r k)
unfolding run_scan put store
run_scan-Fades s task c r k = elim (PeonId-discrete c.peon r) [
  | yes e ↦
      rw (if_pos _ e)
        (subst (λ x. Fades (queue s x k) (tasks_of k (scanned s task c))) e (here c.queue k))
  | no n ↦ rw (if_neg _ n) (Fades-refl (queue s r k))
]
  where
    here :
        (k' k : Queue)
        → Fades (tasks_of k (s.peons c.peon)) (
            tasks_of k (
              with_tasks k'
                (s.peons c.peon)
                (peon_task_scan_list (tasks_of k' (s.peons c.peon)) task c.isbatch c.iswait).0))
    here waiting waiting = scan_list-Fades _ task c.isbatch c.iswait
    here waiting running = Fades-refl _
    here running waiting = Fades-refl _
    here running running = scan_list-Fades _ task c.isbatch c.iswait

pub run_scans-Fades :
    (s : System) (task : Task) (cs : List Scan) (r : PeonId) (k : Queue)
    → Fades (queue s r k) (queue (run_scans s task cs).0 r k)
unfolding run_scans
run_scans-Fades s task [] r k = Fades-refl _
run_scans-Fades s task (c ∷ cs) r k =
    Fades-trans _ _ _ (run_scan-Fades s task c r k)
      (run_scans-Fades (run_scan s task c).0 task cs r k)

-- The queue that a scan goes over, after it.
pub run_scan-queue :
    (s : System) (task : Task) (c : Scan)
    → queue (run_scan s task c).0 c.peon c.queue
      ≡ (peon_task_scan_list (queue s c.peon c.queue) task c.isbatch c.iswait).0
unfolding run_scan put store
run_scan-queue s task c = rw (if_pos _ refl) (there c.queue (s.peons c.peon) _)
  where
    there : (k : Queue) (pe : Peon) (l : List Task) → tasks_of k (with_tasks k pe l) ≡ l
    there waiting pe l = refl
    there running pe l = refl

abbrev pub AllSettled : System → Task → List Scan → Type 0
AllSettled s task = All (λ c. Settled task c.isbatch (queue s c.peon c.queue))

abbrev pub AllNoOlder : System → Task → List Scan → Type 0
AllNoOlder s task = All (λ c. NoOlder task c.isbatch (queue s c.peon c.queue))

pub run_scans-Settled :
    (s : System) (task : Task) (cs : List Scan)
    → (run_scans s task cs).1.discard ≡ false
    → AllSettled (run_scans s task cs).0 task cs
unfolding run_scans
run_scans-Settled s task [] h = tt
run_scans-Settled s task (c ∷ cs) h = (
  Fades-Guarded _ task c.isbatch _ _ (run_scans-Fades _ task cs c.peon c.queue) (
      rw (run_scan-queue s task c)
        (scan_list-Settled _ task c.isbatch c.iswait (unfold run_scan in ground arith))),
  run_scans-Settled (run_scan s task c).0 task cs (ground arith),
)

pub run_scans-NoOlder :
    (s : System) (task : Task) (cs : List Scan) → AllNoOlder (run_scans s task cs).0 task cs
unfolding run_scans
run_scans-NoOlder s task [] = tt
run_scans-NoOlder s task (c ∷ cs) = (
  Fades-Guarded _ task c.isbatch _ _ (run_scans-Fades _ task cs c.peon c.queue)
      (rw (run_scan-queue s task c) (scan_list-NoOlder _ task c.isbatch c.iswait)),
  run_scans-NoOlder (run_scan s task c).0 task cs,
)

AllNoOlder-run_scan :
    (s : System) (task : Task) (c : Scan) (cs : List Scan)
    → AllNoOlder s task cs
    → AllNoOlder (run_scan s task c).0 task cs
AllNoOlder-run_scan s task c [] h = tt
AllNoOlder-run_scan s task c (d ∷ cs) h = (
  Fades-Guarded _ task d.isbatch _ _ (run_scan-Fades s task c d.peon d.queue) h.0,
  AllNoOlder-run_scan s task c cs h.1,
)

run_scan_calm :
    (s : System) (task : Task) (c : Scan)
    → NoOlder task c.isbatch (queue s c.peon c.queue)
    → (run_scan s task c).1.wait ≡ false
unfolding run_scan
run_scan_calm s task c h = scan_list_calm _ task c.isbatch c.iswait h

run_scans_calm :
    (s : System) (task : Task) (cs : List Scan)
    → AllNoOlder s task cs
    → (run_scans s task cs).1.wait ≡ false
unfolding run_scans
run_scans_calm s task [] h = refl
run_scans_calm s task (c ∷ cs) h = ground (
  arith,
  run_scans_calm (run_scan s task c).0 task cs (AllNoOlder-run_scan s task c cs h.1),
  run_scan_calm s task c h.0,
)

-- If `peon_task_action_judge` does not tell a task to be discarded, then in every list that it scans
-- each live task for the same device has the task's own serial number: the older ones are dead.
pub judge-Settled :
    (s : System) (type : PeonType) (task : Task)
    → (peon_task_action_judge s type task).1.discard ≡ false
    → AllSettled (peon_task_action_judge s type task).0 task (schedule type)
unfolding peon_task_action_judge
judge-Settled s type task h = run_scans-Settled s task (schedule type) h

-- A task is told to wait at most once: the older running task is marked dead by the judgement that
-- asks for the wait, and the next judgement no longer sees it.
pub judge_waits_once :
    (s : System) (type : PeonType) (task : Task)
    → let s' = (peon_task_action_judge s type task).0 in
      (peon_task_action_judge s' type task).1.wait ≡ false
unfolding peon_task_action_judge
judge_waits_once s type task =
    run_scans_calm _ task (schedule type) (run_scans-NoOlder s task (schedule type))
