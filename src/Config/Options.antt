-- ===== src/Config/Options.antt =====
-- The options of src/snsd_cfg.c: the two tables, the checks of the values, and saving one item.
use Prim.Native.Char.{code}
use Prim.Native.String.{String}
use nvme_snsd.Base.{
  ℕ, zero, suc, ◌+◌, ◌*◌, ◌-◌, Bool, true, false, ◌&&◌, ◌||◌, ◌==◌, ltb, leb, if◌then◌else◌, List,
  [], ◌∷◌, ◌++◌, length, drop, Option, none, some, ℤ, pos, negsuc,
}
use nvme_snsd.Config.Text.{str_eq, is_space}

-- A text as its bytes.
abbrev pub codes : String → List ℕ
codes String.[] = []
codes (String.◌∷◌ c s) = code c ∷ codes s

-- A value of type `SNSD_CFG_STRING` or `SNSD_CFG_INT`.
pub data Value : Type 0 where
  text : List ℕ → Value
  number : ℤ → Value

-- `check_validity`.
pub data Check : Type 0 where
  no_check unsupport check_ip check_nvme check_noarg check_protocol check_hostnqn
        check_base_hostnqn :
      Check

-- `struct snsd_cfg_commandline`, less the address of the value: its place in the table. `must_sw` and
-- `must_dc` stand for `NECESSARY_MUST`, and `length` is read for texts only.
pub record Commandline : Type 0 where
  pub option : List ℕ
  pub is_text : Bool
  pub length : ℕ
  pub default_value : Value
  pub must_sw : Bool
  pub must_dc : Bool
  pub check_validity : Check
  pub drv_option : List ℕ

abbrev text_option : String → ℕ → Bool → Bool → Check → String → Commandline
text_option option n must_sw must_dc check drv = record {
  option = codes option;
  is_text = true;
  length = n;
  default_value = text (codes "invalid");
  must_sw = must_sw;
  must_dc = must_dc;
  check_validity = check;
  drv_option = codes drv;
}

abbrev int_option : String → ℤ → Bool → Check → String → Commandline
int_option option default must check drv = record {
  option = codes option;
  is_text = false;
  length = 4;
  default_value = number default;
  must_sw = must;
  must_dc = must;
  check_validity = check;
  drv_option = codes drv;
}

-- The entries from `--nr-io-queues` to `--data_digest`, which both tables have.
abbrev shared_options : List Commandline
shared_options =
    int_option "--nr-io-queues" (negsuc 0) false check_nvme "nr_io_queues"
    ∷ int_option "--nr-write-queues" (negsuc 0) false check_nvme "nr_write_queues"
    ∷ int_option "--nr-poll-queues" (negsuc 0) false check_nvme "nr_poll_queues"
    ∷ int_option "--queue-size" (negsuc 0) false check_nvme "queue_size"
    ∷ int_option "--keep-alive-tmo" (negsuc 0) false check_nvme "keep_alive_tmo"
    ∷ int_option "--reconnect-delay" (negsuc 0) false check_nvme "reconnect_delay"
    ∷ int_option "--ctrl-loss-tmo" (negsuc 0) false check_nvme "ctrl_loss_tmo"
    ∷ int_option "--duplicate_connect" (negsuc 0) false check_noarg "duplicate_connect"
    ∷ int_option "--disable_sqflow" (negsuc 0) false check_noarg "disable_sqflow"
    ∷ int_option "--hdr_digest" (negsuc 0) false unsupport "hdr_digest"
    ∷ int_option "--data_digest" (negsuc 0) false unsupport "data_digest"
    ∷ []

-- `command_line_options`.
unfoldable pub command_line_options : List Commandline
command_line_options =
    text_option "--nqn" 256 false false unsupport "nqn"
    ∷ text_option "--traddr" 65 false true check_ip "traddr"
    ∷ text_option "--trsvcid" 20 false false check_nvme "trsvcid"
    ∷ text_option "--host-traddr" 65 true true check_ip "host_traddr"
    ∷ text_option "--hostnqn" 256 false false check_hostnqn "hostnqn"
    ∷ text_option "--hostid" 37 false false check_nvme "hostid"
    ∷ (shared_options
        ++ int_option "--protocol" (pos 0) true check_protocol "protocol"
          ∷ int_option "--protol_role" (pos 0) false unsupport "protol_role"
          ∷ [])

-- `base_command_line_options`.
unfoldable pub base_command_line_options : List Commandline
base_command_line_options =
    int_option "--restrain-time" (pos 0) false no_check "restrain_time"
    ∷ text_option "--trsvcid" 20 false false check_nvme "trsvcid"
    ∷ text_option "--hostnqn" 256 false false check_base_hostnqn "hostnqn"
    ∷ text_option "--hostid" 37 false false check_nvme "hostid"
    ∷ (shared_options
        ++ int_option "--protocol" (pos 0) false unsupport "protocol"
          ∷ int_option "--protol_role" (pos 0) false unsupport "protol_role"
          ∷ [])

-- What the checks ask of others: `inet_pton` for either family, and the checks of the NVMe driver, on
-- a parameter's name and its value.
pub record Checks : Type 0 where
  pub is_address : List ℕ → Bool
  pub nvme_para : List ℕ → List ℕ → Bool
  pub nvme_noarg_para : List ℕ → List ℕ → Bool

-- `snsd_check_protocol_validity`: the text becomes the number of the protocol.
unfoldable pub snsd_check_protocol_validity : List ℕ → Option (List ℕ)
snsd_check_protocol_validity val =
    if str_eq val (codes "roce")
    then some (codes "1")
    else if str_eq val (codes "tcp")
    then some (codes "2")
    else if str_eq val (codes "iscsi")
    then some (codes "3")
    else none

-- `snsd_check_ip_validity`.
unfoldable pub snsd_check_ip_validity : Checks → List ℕ → Bool
snsd_check_ip_validity o ip = if str_eq ip (codes "any") then true else o.is_address ip

abbrev when : Bool → List ℕ → Option (List ℕ)
when b val = if b then some val else none

-- `check_validity` of an option: the value, which the check may have changed, or none.
unfoldable pub validate : Checks → Check → List ℕ → List ℕ → Option (List ℕ)
unfolding snsd_check_protocol_validity snsd_check_ip_validity
validate o no_check name val = some val
validate o unsupport name val = none
validate o check_ip name val = when (snsd_check_ip_validity o val) val
validate o check_nvme name val = when (o.nvme_para name val) val
validate o check_noarg name val = when (o.nvme_noarg_para name val) val
validate o check_protocol name val = snsd_check_protocol_validity val
validate o check_hostnqn name val = when (ltb (length val) 256) val
validate o check_base_hostnqn name val = when (ltb (length val) 256) val

-- `atoi`, on numbers that an `int` holds.
abbrev pub is_digit : ℕ → Bool
is_digit c = leb b'0' c && leb c b'9'

abbrev pub digits_from : ℕ → List ℕ → ℕ
digits_from n [] = n
digits_from n (c ∷ cs) =
    let rest = digits_from (n * 10 + (c - b'0')) cs in if is_digit c then rest else n

abbrev negate : ℕ → ℤ
negate zero = pos 0
negate (suc n) = negsuc n

abbrev signed : List ℕ → ℤ
signed [] = pos 0
signed (c ∷ cs) =
    if c == b'-'
    then negate (digits_from 0 cs)
    else if c == b'+'
    then pos (digits_from 0 cs)
    else pos (digits_from 0 (c ∷ cs))

unfoldable pub atoi : List ℕ → ℤ
atoi [] = signed []
atoi (c ∷ cs) = let rest = atoi cs in if is_space c then rest else signed (c ∷ cs)

-- The end of `snsd_check_and_save`: what is stored, or `-ENOMEM`.
unfoldable pub store_value : Commandline → List ℕ → Option Value
unfolding atoi
store_value line val =
    if line.is_text
    then (if leb line.length (length val) then none else some (text val))
    else some (number (atoi val))

-- The option of a name, with or without its two dashes, from place `i` on.
unfoldable pub find_option : List ℕ → List Commandline → ℕ → Option (ℕ × Commandline)
find_option name [] i = none
find_option name (line ∷ lines) i =
    let rest = find_option name lines (suc i) in
    if str_eq line.option name || str_eq (drop 2 line.option) name then some (i, line) else rest
