-- ===== src/Peon/Rechecked.antt =====
-- The serial numbers through a pass of the recheck worker, src/snsd_conn_peon.c.
use nvme_snsd.Base.{ℕ, ◌+◌, ◌^◌, ◌≡◌, ◌≤◌, ◌<◌, List, [], ◌∷◌, arith, All, length}
use nvme_snsd.Peon.Task.{Task, recheck, System, put}
use nvme_snsd.Peon.Work.{
  Verdict, freed, kept, relived, recheck_one, recheck_next, peon_move_task_to_connect, recheck_list,
  peon_run_recheck,
}
use nvme_snsd.Peon.Numbers.{NumberOk, Numbered, put-Numbered}
use nvme_snsd.Peon.Steps.{generate-next, to_connect-Numbered}

abbrev RecheckOk : ℕ → ℕ → List Task × System → Type 0
RecheckOk low bound (l, s) =
    All (NumberOk s.task_sn recheck) l × Numbered s × (low ≤ s.task_sn) × (s.task_sn ≤ bound)

to_connect-task_sn :
    (now : ℕ) (s : System) (t : Task)
    → s.task_sn + 1 < 2 ^ 64
    → (peon_move_task_to_connect now s t).task_sn ≡ s.task_sn + 1
unfolding peon_move_task_to_connect put
to_connect-task_sn now s t fits = rw (generate-next s fits)

recheck_next-RecheckOk :
    (now low bound : ℕ) (again : System → List Task × System) (t : Task) (s : System) (d : Verdict)
    → ((u : System)
        → s.task_sn ≤ u.task_sn
        → u.task_sn ≤ s.task_sn + 1
        → Numbered u
        → RecheckOk low bound (again u))
    → s.task_sn + 1 < 2 ^ 64
    → t.sn ≡ 0
    → Numbered s
    → RecheckOk low bound (recheck_next now again t s d)
unfolding recheck_next
recheck_next-RecheckOk now low bound again t s freed ok fits z h =
    ok s (omega arith) (omega arith) h
recheck_next-RecheckOk now low bound again t s kept ok fits z h =
    let r = ok s (omega arith) (omega arith) h in ((z, r.0), r.1, r.2, r.3)
recheck_next-RecheckOk now low bound again t s relived ok fits z h =
    ok (peon_move_task_to_connect now s t) (omega (arith, to_connect-task_sn now s t fits))
      (omega (arith, to_connect-task_sn now s t fits)) (to_connect-Numbered now s t fits h)

recheck_list-RecheckOk :
    (w now low bound : ℕ) (ts : List Task) (s : System)
    → low ≤ s.task_sn
    → s.task_sn + length ts ≤ bound
    → bound < 2 ^ 64
    → All (λ t. t.sn ≡ 0) ts
    → Numbered s
    → RecheckOk low bound (recheck_list w now ts s)
unfolding recheck_list
recheck_list-RecheckOk w now low bound [] s from le fits zeros h = (tt, h, from, omega arith)
recheck_list-RecheckOk w now low bound (t ∷ ts) s from le fits zeros h =
    recheck_next-RecheckOk now low bound (recheck_list w now ts) t s (recheck_one w t)
      (λ u j k nu.
        recheck_list-RecheckOk w now low bound ts u (omega arith) (omega arith) fits zeros.1 nu)
      (omega arith) zeros.0 h

pub run_recheck-Numbered :
    (w now : ℕ) (s : System)
    → s.task_sn + length (s.peons recheck).wait_list < 2 ^ 64
    → Numbered s
    → Numbered (peon_run_recheck w now s) × (s.task_sn ≤ (peon_run_recheck w now s).task_sn)
unfolding peon_run_recheck put
run_recheck-Numbered w now s fits h =
    let l = (s.peons recheck).wait_list in
    let ok =
      recheck_list-RecheckOk w now s.task_sn (s.task_sn + length l) l s (omega arith) (omega arith)
        fits (h recheck).0 h in
    let s' = (recheck_list w now l s).1 in
    (put-Numbered s' recheck _ (ok.0, (ok.1 recheck).1) ok.1, ok.2)
