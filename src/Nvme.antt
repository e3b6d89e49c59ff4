-- ===== src/Nvme.antt =====
-- The discovery log of a target, `nvme_discovery_log` of src/snsd_nvme.c: it is read until two reads in
-- a row have the same generation.
use nvme_snsd.Base.{
  ℕ, zero, suc, ◌+◌, ◌*◌, ◌≡◌, ◌≢◌, ◌≤◌, ◌<◌, sym, subst, not, ◌&&◌, ◌==◌, if◌then◌else◌, if_cases,
  u32, Errno, efault, arith,
}

-- What a read of the log page comes to: an error, or the generation and the number of records.
pub data Reply : Type 0 where
  failed : Errno → Reply
  page : ℕ → ℕ → Reply

-- A log in memory: the fields of `struct nvmf_disc_rsp_page_hdr`, and the bytes of its buffer.
pub record DiscLog : Type 0 where
  pub genctr : ℕ
  pub numrec : ℕ
  pub size : ℕ

pub data Discovery : Type 0 where
  error : Errno → Discovery
  found : DiscLog → Discovery

-- The size of the buffer for `numrec` records: the header and a record have 1024 bytes each, and the
-- arithmetic is unsigned 32-bit.
abbrev pub log_size : ℕ → ℕ
log_size numrec = u32 (1024 + u32 numrec * 1024)

-- `DISCOVERY_MAX_RETRY`.
abbrev pub discovery_max_retry : ℕ
discovery_max_retry = 10

-- `read i size` is the i-th read of the device, into a buffer of `size` bytes.
module _ (read : ℕ → ℕ → Reply) where
  -- A turn of the loop, with what it read.
  abbrev pub with_page : (ℕ → ℕ → Discovery) → ℕ → ℕ → Reply → Discovery
  with_page again numrec genctr (failed e) = error e
  with_page again numrec genctr (page g n) =
      let next = again n g in
      if not (n == 0) && (g == genctr)
      then found (record { genctr = g; numrec = n; size = log_size numrec })
      else next

  unfoldable pub retry : ℕ → ℕ → ℕ → ℕ → Discovery
  retry zero i numrec genctr = error efault
  retry (suc n) i numrec genctr =
      with_page (retry n (suc i)) numrec genctr (read i (log_size numrec))

  abbrev pub first_page : Reply → Discovery
  first_page (failed e) = error e
  first_page (page g n) = retry discovery_max_retry 1 n g

  -- `nvme_discovery_log`, where the device can be opened and there is memory.
  unfoldable pub nvme_discovery_log : Discovery
  unfolding retry
  nvme_discovery_log = first_page (read 0 (log_size 0))

-- A log whose buffer has room for the header and for each of its records.
abbrev pub Whole : Discovery → Type 0
Whole (error e) = ⊥
Whole (found l) = l.size ≡ 1024 + l.numrec * 1024

module _ (g m : ℕ → ℕ) (honest : (i j : ℕ) → g i ≡ g j → m i ≡ m j)
    (small : (i : ℕ) → m i < 4194303) where
  retry-Whole :
      (fuel i k : ℕ)
      → i ≤ k
      → k < i + fuel
      → g (suc k) ≡ g k
      → m (suc k) ≢ 0
      → Whole (retry (λ j size. page (g j) (m j)) fuel (suc i) (m i) (g i))
  unfolding retry
  retry-Whole zero i k le lt same some_records = absurd (omega arith)
  retry-Whole (suc fuel) i k le lt same some_records =
      if_cases Whole (not (m (suc i) == 0) && (g (suc i) == g i))
        (λ e.
          let eq : g (suc i) ≡ g i = ground arith in
          let records = honest (suc i) i eq in omega (arith, records, small i))
        λ e.
          let other : i ≢ k = λ q.
            let again : g (suc i) ≡ g i = subst (λ x. g (suc x) ≡ g x) (sym q) same in
            let records : m (suc i) ≢ 0 = subst (λ x. m (suc x) ≢ 0) (sym q) some_records in
            absurd (ground arith) in
          retry-Whole fuel (suc i) k (omega (arith, other)) (omega arith) same some_records

-- A device that changes its generation whenever it changes its records, and has less than 4194303 of
-- them: where one of the first eleven reads finds the generation of the read before it, and a record,
-- a log is returned, and its buffer has room for all the records that it announces.
pub discovery_log-Whole :
    (g m : ℕ → ℕ) (k : ℕ)
    → ((i j : ℕ) → g i ≡ g j → m i ≡ m j)
    → ((i : ℕ) → m i < 4194303)
    → k < discovery_max_retry
    → g (suc k) ≡ g k
    → m (suc k) ≢ 0
    → Whole (nvme_discovery_log λ i size. page (g i) (m i))
unfolding nvme_discovery_log
discovery_log-Whole g m k honest small few same some_records =
    retry-Whole g m honest small discovery_max_retry 0 k (omega arith) (omega arith) same
      some_records
