-- ===== src/Driver/Options.antt =====
-- The options of a connection, which the kernel's device is given as one text, src/snsd_conn_nvme.c.
use nvme_snsd.Base.{
  ℕ, zero, suc, ◌+◌, ◌/◌, ◌%◌, Bool, true, not, ◌==◌, ltb, if◌then◌else◌, List, [], ◌∷◌, ◌++◌,
  Option, none, some, length, get_elem?, ◌>>=◌, ℤ, pos, negsuc,
}
use nvme_snsd.Net.{Mode, sw, dc}
use nvme_snsd.Config.Text.{str_eq}
use nvme_snsd.Config.Options.{Value, codes}
use nvme_snsd.Config.Items.{CfgInfos, text_of, number_of, Config}
use nvme_snsd.Config.Conflict.{snsd_find_sw_info, snsd_find_dc_info}
use nvme_snsd.Driver.{NvmeCtx, strstr}

-- The digits of a number in at most so many rounds, with `rest` behind them.
unfoldable pub decimal_onto : ℕ → ℕ → List ℕ → List ℕ
decimal_onto zero n rest = rest
decimal_onto (suc f) n rest =
    let more = decimal_onto f (n / 10) ((48 + n % 10) ∷ rest) in
    if ltb n 10 then (48 + n) ∷ rest else more

-- `%d` of a number of 32 bits, which has at most 10 digits.
abbrev pub decimal : ℕ → List ℕ
decimal n = decimal_onto 10 n []

abbrev pub int_text : ℤ → List ℕ
int_text (pos n) = decimal n
int_text (negsuc n) = b'-' ∷ decimal (suc n)

abbrev pub named_argument : List ℕ → List ℕ → List ℕ
named_argument name val = b',' ∷ (name ++ b'=' ∷ val)

-- `snsd_nvme_add_argument`: the text that it adds.
abbrev pub snsd_nvme_add_argument : List ℕ → List ℕ → List ℕ → List ℕ
snsd_nvme_add_argument cfg base name =
    if not (str_eq cfg (codes "invalid"))
    then named_argument name cfg
    else if not (str_eq base (codes "invalid"))
    then named_argument name base
    else []

-- A number that is not configured is -1.
abbrev pub is_given : ℤ → Bool
is_given (pos n) = true
is_given (negsuc n) = not (n == 0)

-- `snsd_nvme_add_int_argument`.
abbrev pub snsd_nvme_add_int_argument : ℤ → ℤ → List ℕ → List ℕ
snsd_nvme_add_int_argument cfg base name =
    if is_given cfg
    then named_argument name (int_text cfg)
    else if is_given base
    then named_argument name (int_text base)
    else []

-- `snsd_nvme_add_noarg_argument`.
abbrev pub snsd_nvme_add_noarg_argument : ℤ → ℤ → List ℕ → List ℕ
snsd_nvme_add_noarg_argument cfg base name =
    if is_given cfg then b',' ∷ name else if is_given base then b',' ∷ name else []

-- `snsd_nvme_add_hostnqn`; `hostnqn` is `snsd_get_base_hostnqn`.
abbrev pub snsd_nvme_add_hostnqn : List ℕ → List ℕ → List ℕ
snsd_nvme_add_hostnqn cfg hostnqn =
    if not (str_eq cfg (codes "invalid"))
    then named_argument (codes "hostnqn") cfg
    else named_argument (codes "hostnqn") hostnqn

-- `snprintf` behind what stands in the buffer of SNSD_BUF_SIZE bytes. A text that has no room is none:
-- the next one would be written behind the end of the buffer.
abbrev pub put_text : List ℕ → List ℕ → Option (List ℕ)
put_text out s = if ltb (length out + length s) 1024 then some (out ++ s) else none

unfoldable pub put_all : List (List ℕ) → List ℕ → Option (List ℕ)
put_all [] out = some out
put_all (s ∷ ss) out = put_text out s >>= put_all ss

abbrev pub address_text : NvmeCtx → List ℕ
address_text ctx =
    codes "traddr="
    ++ (ctx.traddr
        ++ (codes ",host_traddr="
            ++ (ctx.host_traddr
                ++ (codes ",transport="
                    ++ (ctx.transport
                        ++ (codes ",trsvcid="
                            ++ (ctx.trsvcid ++ (codes ",nqn=" ++ ctx.subsysnqn))))))))

-- The end of `snsd_nvme_fill_arg`: 30 minutes of attempts where nothing is configured.
unfoldable pub loss_tmo : List ℕ → Option (List ℕ)
unfolding strstr
loss_tmo out =
    if strstr out (codes "ctrl_loss_tmo=")
    then some out
    else put_text out (codes ",ctrl_loss_tmo=1800")

-- The arguments of `snsd_nvme_fill_arg`, by their places in the two tables of options.
module _ (cfg_info : CfgInfos) (base_info : List Value) (hostnqn : List ℕ) where
  abbrev pub int_argument : ℕ → ℕ → List ℕ → List ℕ
  int_argument i j name =
      snsd_nvme_add_int_argument (number_of (get_elem? cfg_info.values i))
        (number_of (get_elem? base_info j)) name

  abbrev pub noarg_argument : ℕ → ℕ → List ℕ → List ℕ
  noarg_argument i j name =
      snsd_nvme_add_noarg_argument (number_of (get_elem? cfg_info.values i))
        (number_of (get_elem? base_info j)) name

  unfoldable pub arguments : List (List ℕ)
  arguments =
      snsd_nvme_add_hostnqn (text_of (get_elem? cfg_info.values 4)) hostnqn
      ∷ snsd_nvme_add_argument (text_of (get_elem? cfg_info.values 5))
          (text_of (get_elem? base_info 3)) (codes "hostid")
      ∷ int_argument 6 4 (codes "nr_io_queues")
      ∷ int_argument 7 5 (codes "nr_write_queues")
      ∷ int_argument 8 6 (codes "nr_poll_queues")
      ∷ int_argument 9 7 (codes "queue_size")
      ∷ int_argument 10 8 (codes "keep_alive_tmo")
      ∷ int_argument 11 9 (codes "reconnect_delay")
      ∷ int_argument 12 10 (codes "ctrl_loss_tmo")
      ∷ noarg_argument 13 11 (codes "duplicate_connect")
      ∷ noarg_argument 14 12 (codes "disable_sqflow")
      ∷ noarg_argument 15 13 (codes "hdr_digest")
      ∷ noarg_argument 16 14 (codes "data_digest")
      ∷ []

  -- `snsd_nvme_fill_arg`.
  unfoldable pub snsd_nvme_fill_arg : NvmeCtx → Option (List ℕ)
  unfolding put_all arguments loss_tmo
  snsd_nvme_fill_arg ctx = put_all (address_text ctx ∷ arguments) [] >>= loss_tmo

-- The network of the connection, by its mode; none is NULL.
abbrev pub network_of : Config → NvmeCtx → Mode → Option CfgInfos
network_of c ctx sw = snsd_find_sw_info c.anyflag ctx.host_traddr (pos ctx.protocol) c.sw_info_list
network_of c ctx dc = snsd_find_dc_info ctx.host_traddr ctx.traddr (pos ctx.protocol) c.dc_info_list

-- `snsd_nvme_build_options`. A network that is not found is NULL, whose fields are read: none.
unfoldable pub snsd_nvme_build_options : Config → NvmeCtx → Option (List ℕ)
unfolding snsd_nvme_fill_arg
snsd_nvme_build_options c ctx = network_of c ctx ctx.mode >>= λ cfg_info.
    snsd_nvme_fill_arg cfg_info c.base_cfg c.snsd_hostnqn ctx
