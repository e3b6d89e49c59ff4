-- ===== src/Driver/Create.antt =====
-- Making a controller by the kernel's device, and the one that is made to read a target's discovery log,
-- src/snsd_conn_nvme.c.
use nvme_snsd.Base.{
  not, ℕ, ◌+◌, ◌-◌, ◌*◌, Bool, true, false, ◌||◌, ◌&&◌, ◌==◌, ltb, leb, if◌then◌else◌, List, [],
  ◌∷◌, ◌++◌, take, drop, length, Option, none, some, ◌>>=◌, ◌⊎◌, inl, inr, ℤ, pos, negsuc, Status,
  success, failure, Errno, einval, erange, efault, other, c_string,
}
use nvme_snsd.Config.Text.{is_space}
use nvme_snsd.Config.Options.{codes, is_digit}
use nvme_snsd.Driver.{LogEntry, strstr}
use nvme_snsd.Driver.Address.{pieces_from}
use nvme_snsd.Driver.Options.{decimal}

-- `strtol` of the C library, for the base 0: the value of a digit,
abbrev pub digit_value : ℕ → ℕ
digit_value c =
    if is_digit c
    then c - 48
    else if leb 97 c && leb c 122
    then c - 87
    else if leb 65 c && leb c 90
    then c - 55
    else 36

abbrev pub seen : Bool → ℕ → Option ℕ
seen any n = if any then some n else none

-- the digits of a base, where `any` says whether there has been one,
unfoldable pub digits_in : ℕ → ℕ → Bool → List ℕ → Option ℕ
digits_in base n any [] = seen any n
digits_in base n any (c ∷ cs) =
    let rest = digits_in base (n * base + digit_value c) true cs in
    if ltb (digit_value c) base then rest else seen any n

abbrev pub starts_hex : List ℕ → Bool
starts_hex [] = false
starts_hex (c ∷ cs) = ltb (digit_value c) 16

-- what follows a zero, which is octal, or hexadecimal behind an x,
abbrev pub behind_zero : List ℕ → Option ℕ
behind_zero [] = some 0
behind_zero (c ∷ cs) =
    if ((c == b'x') || (c == b'X')) && starts_hex cs
    then digits_in 16 0 false cs
    else digits_in 8 0 true (c ∷ cs)

abbrev pub magnitude : List ℕ → Option ℕ
magnitude [] = none
magnitude (c ∷ cs) = if c == b'0' then behind_zero cs else digits_in 10 0 false (c ∷ cs)

abbrev pub minus : ℕ → ℤ
minus n = if n == 0 then pos 0 else negsuc (n - 1)

abbrev pub with_sign : List ℕ → Option ℤ
with_sign [] = none
with_sign (c ∷ cs) =
    if c == b'-'
    then (magnitude cs >>= λ n. some (minus n))
    else if c == b'+'
    then (magnitude cs >>= λ n. some (pos n))
    else magnitude (c ∷ cs) >>= λ n. some (pos n)

-- and the blanks before it. None is that no digit is read. A number outside a `long` is given as it is: the
-- caller takes neither it nor the end of a `long`, which are both outside an `int`.
unfoldable pub strtol : List ℕ → Option ℤ
strtol [] = none
strtol (c ∷ cs) = let rest = strtol cs in if is_space c then rest else with_sign (c ∷ cs)

-- What `snsd_nvme_ctrl_create` returns: an instance, or an error.
pub data Made : Type 0 where
  instance_made : ℕ → Made
  not_made : Errno → Made

abbrev pub as_int : Option ℤ → Made
as_int none = not_made einval
as_int (some (pos n)) = if ltb 2147483647 n then not_made erange else instance_made n
as_int (some (negsuc n)) = if ltb 2147483647 n then not_made erange else not_made (other n)

-- The loop of `snsd_nvme_ctrl_parse_instance`. The key is sought anywhere in a piece, and its length is
-- taken off the front.
unfoldable pub parse_pieces : List (List ℕ) → Made
unfolding strstr strtol
parse_pieces [] = not_made einval
parse_pieces ([] ∷ ps) = parse_pieces ps
parse_pieces ((c ∷ cs) ∷ ps) =
    let rest = parse_pieces ps in
    if strstr (c ∷ cs) (codes "instance=") then as_int (strtol (drop 9 (c ∷ cs))) else rest

unfoldable pub snsd_nvme_ctrl_parse_instance : List ℕ → Made
unfolding parse_pieces pieces_from
snsd_nvme_ctrl_parse_instance buf = parse_pieces (pieces_from [] buf)

-- The kernel's device: what opening it comes to; what a write returns, and `errno` after it, where none is 0;
-- and the error or the bytes of a read.
pub record Fabrics : Type 0 where
  pub opened : Status
  pub write : List ℕ → ℤ × Option Errno
  pub read : List ℕ → Errno ⊎ List ℕ

-- `-errno`, as the code takes it.
abbrev pub minus_errno : Option Errno → Made
minus_errno none = instance_made 0
minus_errno (some e) = not_made e

abbrev pub after_read : Errno ⊎ List ℕ → Made
after_read (inl e) = not_made e
after_read (inr bytes) = snsd_nvme_ctrl_parse_instance (c_string (take 1023 bytes))

abbrev pub is_whole : ℤ → ℕ → Bool
is_whole (pos n) len = n == len
is_whole (negsuc n) len = false

abbrev pub after_open : Fabrics → List ℕ → Status → Made
after_open k arg_buf (failure e) = not_made e
after_open k arg_buf success =
    if is_whole (k.write arg_buf).0 (length arg_buf)
    then after_read (k.read arg_buf)
    else minus_errno (k.write arg_buf).1

-- `snsd_nvme_ctrl_create`.
unfoldable pub snsd_nvme_ctrl_create : Fabrics → List ℕ → Made
unfolding snsd_nvme_ctrl_parse_instance
snsd_nvme_ctrl_create k arg_buf = after_open k arg_buf k.opened

-- `snsd_nvme_create`, on the options that have been built.
abbrev pub create_status : Made → Status
create_status (instance_made n) = success
create_status (not_made e) = failure e

unfoldable pub snsd_nvme_create : Fabrics → List ℕ → Status
unfolding snsd_nvme_ctrl_create
snsd_nvme_create k options = create_status (snsd_nvme_ctrl_create k options)

-- `SNSD_NOT_SUPPORT_PARA`.
abbrev pub is_unsupported : Made → Bool
is_unsupported (instance_made n) = false
is_unsupported (not_made einval) = true
is_unsupported (not_made (other n)) = n == 21
is_unsupported (not_made e) = false

abbrev pub test_address : List ℕ
test_address = codes "traddr=0.0.0.0,nqn=nqn.2020-02.123456,transport=rdma"

-- `snsd_nvme_para_validity_test`; `snprintf` gives 1023 bytes at most.
unfoldable pub snsd_nvme_para_validity_test : Fabrics → List ℕ → List ℕ → Bool
unfolding snsd_nvme_ctrl_create
snsd_nvme_para_validity_test k para_name para_val = not (
    is_unsupported
      (snsd_nvme_ctrl_create k (take 1023 (test_address ++ b',' ∷ (para_name ++ b'=' ∷ para_val)))))

-- `snsd_nvme_noarg_para_validity_test`.
unfoldable pub snsd_nvme_noarg_para_validity_test : Fabrics → List ℕ → List ℕ → Bool
unfolding snsd_nvme_ctrl_create
snsd_nvme_noarg_para_validity_test k para_name para_val =
    not (is_unsupported (snsd_nvme_ctrl_create k (take 1023 (test_address ++ b',' ∷ para_name))))

abbrev pub device_name : ℕ → List ℕ
device_name n = codes "nvme" ++ decimal n

abbrev pub or_efault : Status × List LogEntry → Status × List LogEntry
or_efault (success, entries) = (success, entries)
or_efault (failure e, entries) = (failure efault, [])

-- `snsd_nvme_disc_get_log`, where `log` is `nvme_discovery_log` at a path: the log, and the controller
-- that `snsd_nvme_ctrl_remove` is called for.
abbrev pub log_of_made :
    (List ℕ → Status × List LogEntry) → Made → (Status × List LogEntry) × Option (List ℕ)
log_of_made log (instance_made n) =
    (or_efault (log (codes "/dev/" ++ device_name n)), some (device_name n))
log_of_made log (not_made e) = ((failure e, []), none)

unfoldable pub snsd_nvme_disc_get_log :
    Fabrics
    → (List ℕ → Status × List LogEntry)
    → List ℕ
    → (Status × List LogEntry) × Option (List ℕ)
unfolding snsd_nvme_ctrl_create
snsd_nvme_disc_get_log k log arg_buf = log_of_made log (snsd_nvme_ctrl_create k arg_buf)

abbrev pub is_tail_space : ℕ → Bool
is_tail_space c = (c == b' ') || (c == 0)

abbrev pub all_zero : List ℕ → Bool
all_zero [] = true
all_zero (c ∷ cs) = (c == 0) && all_zero cs

-- `snsd_strip_tail_space`, from the end on: a blank goes where all that is behind it has gone.
unfoldable pub snsd_strip_tail_space : List ℕ → List ℕ
snsd_strip_tail_space [] = []
snsd_strip_tail_space (c ∷ cs) =
    let rest = snsd_strip_tail_space cs in
    if is_tail_space c && all_zero rest then 0 ∷ rest else c ∷ rest

-- `snsd_nvme_disc_refurbish_log`, on the arrays of the records.
unfoldable pub snsd_nvme_disc_refurbish_log : List LogEntry → List LogEntry
unfolding snsd_strip_tail_space
snsd_nvme_disc_refurbish_log [] = []
snsd_nvme_disc_refurbish_log (entry ∷ rest) =
    record entry {
      trsvcid = snsd_strip_tail_space entry.trsvcid;
      traddr = snsd_strip_tail_space entry.traddr;
    }
    ∷ snsd_nvme_disc_refurbish_log rest
