-- ===== src/Tests/Logs.antt =====
-- Runs of src/snsd_nvme.c.
use nvme_snsd.Base.{ℕ, zero, suc, ◌<◌, ◌≡◌, refl, arith, efault}
use nvme_snsd.Nvme.{page, found, error, log_size, nvme_discovery_log, Whole, discovery_log-Whole}

-- The generation changes once, between the first read and the second.
abbrev generation : ℕ → ℕ
generation zero = 1
generation (suc i) = 2

abbrev records : ℕ → ℕ
records zero = 1
records (suc i) = 3

same_records : (i j : ℕ) → generation i ≡ generation j → records i ≡ records j
same_records zero zero e = refl
same_records zero (suc j) e = cc
same_records (suc i) zero e = cc
same_records (suc i) (suc j) e = refl

few_records : (i : ℕ) → records i < 4194303
few_records zero = omega arith
few_records (suc i) = omega arith

discovery_log-Whole_example : Whole (nvme_discovery_log λ i size. page (generation i) (records i))
discovery_log-Whole_example =
    discovery_log-Whole generation records 1 same_records few_records (omega arith) refl λ e. cc

log_run :
    nvme_discovery_log (λ i size. page (generation i) (records i))
    ≡ found (record { genctr = 2; numrec = 3; size = 4096 })
unfolding nvme_discovery_log
log_run = refl

-- A generation that changes with every read.
never_stable : nvme_discovery_log (λ i size. page i 1) ≡ error efault
unfolding nvme_discovery_log
never_stable = refl

-- A device that announces 4194304 records: the buffer has room for the header only.
wrapped_size : log_size 4194304 ≡ 1024
wrapped_size = refl
