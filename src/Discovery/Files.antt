-- ===== src/Discovery/Files.antt =====
-- Reading the kernel's files and its list of interfaces, src/snsd_mgt.c.
use nvme_snsd.Base.{
  ℕ, zero, suc, ◌+◌, ◌-◌, Bool, ◌||◌, not, ◌==◌, ltb, leb, if◌then◌else◌, List, take, length,
  Option, none, some, ◌>>=◌, u32, Status, failure, eagain, c_string,
}
use nvme_snsd.Discovery.Poll.{Port, IfReq, Kernel, snsd_get_net_info}

-- `snsd_get_file_length`: the loop over a file of which `remaining` bytes are not yet read, by its reads of
-- SNSD_CFG_VALUE_MAX_LEN bytes; `error i` is `ferror` after the i-th. None is that it has not ended, and
-- some none a failure.
abbrev pub read_size : ℕ → ℕ
read_size remaining = if ltb remaining 1023 then remaining else 1023

unfoldable pub length_from : ℕ → (ℕ → Bool) → ℕ → ℕ → ℕ → Option (Option ℕ)
length_from zero error i remaining len = none
length_from (suc fuel) error i remaining len =
    let ret = read_size remaining in
    let rest = length_from fuel error (suc i) (remaining - ret) (u32 (len + ret)) in
    if error i then some none else if ret == 1023 then rest else some (some (u32 (len + ret)))

-- What a file is when its length is taken, and when it is read: none is that it cannot be opened. The
-- kernel makes the text anew each time.
pub record File : Type 0 where
  pub first : Option (List ℕ)
  pub second : Option (List ℕ)
  pub error : ℕ → Bool
  pub second_error : Bool
  pub memory : Bool

abbrev pub snsd_get_file_length : File → Option (List ℕ) → Option (Option ℕ)
snsd_get_file_length f none = some none
snsd_get_file_length f (some bytes) = length_from (suc (length bytes)) f.error 0 (length bytes) 0

abbrev pub read_second : File → ℕ → Option (List ℕ) → Option (Option (List ℕ))
read_second f len none = none
read_second f len (some bytes) =
    if f.second_error || ltb (length bytes) len
    then none
    else some (some (c_string (take len bytes)))

-- The rest of `snsd_get_file_info`: none is a failure, and some none that the text is left NULL. A length
-- that is negative as an `int` is a failure, too; one of 2147483647, for which `file_length + 1` overflows,
-- is not told from the others.
abbrev pub read_text : File → Option ℕ → Option (Option (List ℕ))
read_text f none = none
read_text f (some len) =
    if len == 0
    then some none
    else if leb 2147483648 len || not f.memory
    then none
    else read_second f len f.second

-- `snsd_get_file_info`.
unfoldable pub snsd_get_file_info : File → Option (Option (Option (List ℕ)))
unfolding length_from
snsd_get_file_info f = snsd_get_file_length f f.first >>= λ len. some (read_text f len)

-- The loop of `snsd_get_ifconf` with room for `numreqs` interfaces; `reply i n` is the i-th SIOCGIFCONF, with
-- room for n, where none is a failure of `ioctl` or of `malloc`. `numreqs` and the size in bytes are of type
-- `int` in the code, and have no bound here: they would overflow beyond 53 million interfaces.
abbrev pub with_reply :
    Option (Option (List IfReq)) → ℕ → Option (List IfReq) → Option (Option (List IfReq))
with_reply again numreqs none = some none
with_reply again numreqs (some ifs) = if length ifs == numreqs then again else some (some ifs)

unfoldable pub ifconf_from :
    ℕ → (ℕ → ℕ → Option (List IfReq)) → ℕ → ℕ → Option (Option (List IfReq))
ifconf_from zero reply i numreqs = none
ifconf_from (suc fuel) reply i numreqs =
    with_reply (ifconf_from fuel reply (suc i) (numreqs + 128)) numreqs (reply i numreqs)

-- `snsd_get_ifconf`, from SNSD_DEFAULT_IFS on.
unfoldable pub snsd_get_ifconf : ℕ → (ℕ → ℕ → Option (List IfReq)) → Option (Option (List IfReq))
unfolding ifconf_from
snsd_get_ifconf fuel reply = ifconf_from fuel reply 0 128

abbrev pub poll_interfaces :
    Kernel → ℕ → Status → List Port → Option (List IfReq) → Option (List Port × Status)
poll_interfaces k count ret ports none = some (ports, failure eagain)
poll_interfaces k count ret ports (some ifs) =
    snsd_get_net_info (record k { interfaces = ifs }) count ret ports

-- `snsd_all_net_info`; `socket` is whether a socket is got.
unfoldable pub snsd_all_net_info :
    ℕ
    → Bool
    → (ℕ → ℕ → Option (List IfReq))
    → Kernel
    → ℕ
    → Status
    → List Port
    → Option (List Port × Status)
unfolding snsd_get_ifconf snsd_get_net_info
snsd_all_net_info fuel socket reply k count ret ports =
    if socket
    then (snsd_get_ifconf fuel reply >>= poll_interfaces k count ret ports)
    else some (ports, failure eagain)
