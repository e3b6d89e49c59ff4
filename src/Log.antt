-- ===== src/Log.antt =====
-- The log, src/snsd_log.c and src/snsd_log.h: the line that is written, and the two ways in which messages
-- are held back.
use nvme_snsd.Base.{
  ℕ, zero, suc, ◌+◌, ◌-◌, ◌*◌, ◌≤◌, ◌<◌, ◌≡◌, inl, inr, Bool, true, false, ◌||◌, ◌==◌, ltb, leb,
  if◌then◌else◌, List, [], ◌∷◌, ◌++◌, length, length-append, get_elem?, set, Option, none, some,
  ◌>>=◌, All, All-map_pred, ◌↔◌, arith, Bool-cases,
}

-- `LOG_BUFFER_SIZE`.
abbrev log_buffer_size : ℕ
log_buffer_size = 1024

-- `snprintf` at a place of the buffer that earlier calls have announced. What is there is none where the
-- place is behind the end of the buffer: the room that is left wraps, and the text is written outside.
abbrev print_at : List ℕ → ℕ → List ℕ → Option (List ℕ × ℕ)
print_at buf size s = if ltb log_buffer_size size then none else some (buf ++ s, size + length s)

-- The last byte of the buffer is a zero.
abbrev cut : ℕ → List ℕ → List ℕ
cut zero s = []
cut (suc n) [] = []
cut (suc n) (c ∷ s) = c ∷ cut n s

-- `snsd_print_line`, above the level: `level` is the text of the level, `message` what the format makes
-- of the arguments, and `place` the text of the file and the line; none is a write outside the buffer.
unfoldable pub snsd_print_line : List ℕ → List ℕ → List ℕ → Option (List ℕ)
snsd_print_line level message place = do
  (first, size) ← print_at [] 0 (level ++ b' ' ∷ [])
  (second, size) ← print_at first size message
  (third, size) ← print_at second size place
  some (cut 1023 third)

-- The two variables of a place with `SNSD_LIMIT_PRINT`.
pub record Limit : Type 0 where
  pub pre : ℕ
  pub print_cnt : ℕ

-- A new period begins after `limit` seconds.
abbrev pub renew : ℕ → ℕ → ℕ → Limit → Limit
renew cnt limit now l = if ltb (l.pre + limit) now then record { pre = now; print_cnt = cnt } else l

-- `SNSD_LIMIT_PRINT`: whether the message is printed.
unfoldable pub limit_print : ℕ → ℕ → ℕ → Limit → Limit × Bool
limit_print cnt limit now l =
    let r = renew cnt limit now l in
    if ltb 0 r.print_cnt then (record r { print_cnt = r.print_cnt - 1 }, true) else (r, false)

-- How many messages are printed at these times.
unfoldable pub printed : ℕ → ℕ → List ℕ → Limit → ℕ
unfolding limit_print
printed cnt limit [] l = 0
printed cnt limit (now ∷ times) l =
    let r = limit_print cnt limit now l in (if r.1 then 1 else 0) + printed cnt limit times r.0

-- Within a period that has begun, what is left is printed at most.
printed_in_period :
    (cnt limit last : ℕ) (times : List ℕ) (l : Limit)
    → All (λ t. t ≤ last) times
    → last ≤ l.pre + limit
    → printed cnt limit times l ≤ l.print_cnt
unfolding printed
printed_in_period cnt limit last [] l h e = omega arith
printed_in_period cnt limit last (now ∷ times) l h e = ground (
  arith,
  h.0,
  printed_in_period cnt limit last times l h.1 e,
  printed_in_period cnt limit last times (record l { print_cnt = l.print_cnt - 1 }) h.1 e,
)

printed_from :
    (cnt limit start : ℕ) (times : List ℕ) (l : Limit)
    → All (λ t. (start ≤ t) × (t ≤ start + limit)) times
    → printed cnt limit times l ≤ l.print_cnt + cnt
unfolding printed
printed_from cnt limit start [] l h = omega arith
printed_from cnt limit start (now ∷ times) l h =
    let late =
      All-map_pred (λ t. (start ≤ t) × (t ≤ start + limit)) (λ t. t ≤ start + limit) (λ t b. b.1)
        times h.1 in
    elim (Bool-cases (ltb (l.pre + limit) now)) [
      | inl renewed ↦ ground (
        arith,
        h.0,
        printed_in_period cnt limit (start + limit) times
            (record { pre = now; print_cnt = cnt - 1 }) late (omega arith),
        printed_in_period cnt limit (start + limit) times (record { pre = now; print_cnt = cnt })
            late (omega arith),
      )
      | inr same ↦ ground (
        arith,
        h.0,
        printed_from cnt limit start times l h.1,
        printed_from cnt limit start times (record l { print_cnt = l.print_cnt - 1 }) h.1,
      )
    ]

-- Of the messages of one place whose times lie within a period of each other at most twice the permitted
-- number is printed, whatever was printed before.
pub printed_twice :
    (cnt limit start : ℕ) (times : List ℕ) (l : Limit)
    → l.print_cnt ≤ cnt
    → All (λ t. (start ≤ t) × (t ≤ start + limit)) times
    → printed cnt limit times l ≤ 2 * cnt
printed_twice cnt limit start times l h k = omega (arith, printed_from cnt limit start times l k)

-- A line is written outside the buffer exactly where the level and the message, with a blank between
-- them, are longer than the buffer.
pub print_line-none_iff :
    (level message place : List ℕ)
    → (snsd_print_line level message place ≡ none) ↔ (1024 < length level + 1 + length message)
unfolding snsd_print_line
print_line-none_iff level message place = (
  λ e. ground (arith, length-append level (b' ' ∷ [])),
  λ h. ground (arith, length-append level (b' ' ∷ [])),
)

-- `struct key_log`.
pub record KeyLog : Type 0 where
  pub key : ℕ
  pub cnt : ℕ
  pub tm : ℕ

-- `klog_find`, from place `i` on.
unfoldable pub klog_find : ℕ → List KeyLog → ℕ → Option ℕ
klog_find key [] i = none
klog_find key (k ∷ ks) i =
    let rest = klog_find key ks (suc i) in if k.key == key then some i else rest

-- A record that is out of date, or was never used.
abbrev pub is_stale : ℕ → ℕ → KeyLog → Bool
is_stale now limit k = (k.tm == 0) || ltb (k.tm + limit) now

-- The variables `kg`, `okg` and `ot` of `klog_get`.
pub record Choice : Type 0 where
  pub kg : Option ℕ
  pub okg : Option ℕ
  pub ot : ℕ

abbrev pub choose : ℕ → ℕ → ℕ → KeyLog → Choice → Choice
choose now limit i k c = record {
  kg = if is_stale now limit k then some i else c.kg;
  okg = if ltb k.tm c.ot then some i else c.okg;
  ot = if ltb k.tm c.ot then k.tm else c.ot;
}

abbrev pub or_first : Option ℕ → Option ℕ → ℕ
or_first (some i) okg = i
or_first none (some i) = i
or_first none none = 0

unfoldable pub choose_all : ℕ → ℕ → ℕ → List KeyLog → Choice → Choice
choose_all now limit i [] c = c
choose_all now limit i (k ∷ ks) c = choose_all now limit (suc i) ks (choose now limit i k c)

-- `klog_get`: the place of the record that is used anew.
unfoldable pub klog_get : ℕ → ℕ → List KeyLog → ℕ
unfolding choose_all
klog_get now limit klog =
    let c = choose_all now limit 0 klog (record { kg = none; okg = none; ot = now }) in
    or_first c.kg c.okg

abbrev pub used_anew : ℕ → ℕ → Bool → KeyLog → KeyLog
used_anew key now reinit k = if reinit then record { key = key; cnt = 0; tm = now } else k

abbrev pub count_message : ℕ → List KeyLog → ℕ → KeyLog → List KeyLog × Bool
count_message cnt klog i k = (set klog i (record k { cnt = k.cnt + 1 }), leb (k.cnt + 1) cnt)

-- The place of a key's record, and whether the record is used anew.
abbrev pub place_of : ℕ → ℕ → List KeyLog → Option ℕ → Option (ℕ × Bool × KeyLog)
place_of now limit klog none = do
  let i = klog_get now limit klog
  k ← get_elem? klog i
  some (i, true, k)
place_of now limit klog (some i) = do k ← get_elem? klog i; some (i, ltb (k.tm + limit) now, k)

-- `SNSD_PRINT_LIMIT_BY_KEY`: the records, and whether the message is printed. None is an access outside
-- the table, which has KLOG_CNT entries.
unfoldable pub print_limit_by_key : ℕ → ℕ → ℕ → ℕ → List KeyLog → Option (List KeyLog × Bool)
unfolding klog_find klog_get
print_limit_by_key cnt limit key now klog = do
  (i, reinit, k) ← place_of now limit klog (klog_find key klog 0)
  some (count_message cnt klog i (used_anew key now reinit k))
