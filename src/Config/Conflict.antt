-- ===== src/Config/Conflict.antt =====
-- The checks of src/snsd_cfg.c on the configured networks, the lookups in them, and the whole of
-- `snsd_cfg_init`.
use nvme_snsd.Base.{
  ℕ, Bool, true, false, ◌&&◌, not, if◌then◌else◌, List, [], ◌∷◌, ◌++◌, Option, none, some, ℤ, pos,
  Status, success, failure, eperm,
}
use nvme_snsd.Net.{sw, dc}
use nvme_snsd.Config.Text.{str_eq}
use nvme_snsd.Config.Options.{codes, Checks}
use nvme_snsd.Config.Items.{
  base, net, Config, CfgInfos, host_traddr_of, traddr_of, protocol_of, snsd_init_base_cfg, same_int,
}
use nvme_snsd.Config.Parse.{snsd_get_section_info}

-- The inner loop of `snsd_check_single`: it starts after the item and ends when it is there again, so
-- it passes the items after it, the list's head and the items before it. What the head holds where an
-- item has its address is `head`, bytes that do not belong to the list.
unfoldable pub conflicts : List ℕ → List (List ℕ) → Bool
conflicts ip [] = false
conflicts ip (other ∷ others) =
    let rest = conflicts ip others in if str_eq ip other then true else rest

-- The body of the outer loop: `any` is `anyflag == SNSD_ANY_YES && mode == SNSD_MODE_SW`.
abbrev pub refuses : Bool → List ℕ → List (List ℕ) → Bool
refuses any ip others = if any && not (str_eq ip (codes "any")) then true else conflicts ip others

-- The outer loop, with the addresses before the item in their order.
unfoldable pub check_from : Bool → List ℕ → List (List ℕ) → List (List ℕ) → Bool
unfolding conflicts
check_from any head before [] = true
check_from any head before (ip ∷ after) =
    let rest = check_from any head (before ++ ip ∷ []) after in
    if refuses any ip (after ++ head ∷ before) then false else rest

-- `snsd_check_single`.
unfoldable pub snsd_check_single : Bool → List ℕ → List (List ℕ) → Bool
unfolding check_from
snsd_check_single any head ips = check_from any head [] ips

-- `snsd_check_both`.
unfoldable pub snsd_check_both : List (List ℕ) → List (List ℕ) → Bool
unfolding conflicts
snsd_check_both [] dcs = true
snsd_check_both (ip ∷ ips) dcs = if conflicts ip dcs then false else snsd_check_both ips dcs

abbrev pub addresses : List CfgInfos → List (List ℕ)
addresses [] = []
addresses (c ∷ cs) = host_traddr_of c ∷ addresses cs

-- `snsd_check_conflict`, with what the heads of the two lists hold.
unfoldable pub snsd_check_conflict : List ℕ → List ℕ → Config → Bool
unfolding snsd_check_single snsd_check_both
snsd_check_conflict sw_head dc_head c =
    snsd_check_single c.anyflag sw_head (addresses c.sw_info_list)
    && (snsd_check_single false dc_head (addresses c.dc_info_list)
        && snsd_check_both (addresses c.sw_info_list) (addresses c.dc_info_list))

-- `snsd_find_dc_info` and `snsd_find_sw_info`.
unfoldable pub snsd_find_dc_info : List ℕ → List ℕ → ℤ → List CfgInfos → Option CfgInfos
snsd_find_dc_info host_traddr traddr protocol [] = none
snsd_find_dc_info host_traddr traddr protocol (c ∷ cs) =
    let rest = snsd_find_dc_info host_traddr traddr protocol cs in
    if str_eq host_traddr (host_traddr_of c)
      && (str_eq traddr (traddr_of c) && same_int protocol (protocol_of c))
    then some c
    else rest

unfoldable pub snsd_find_sw_info : Bool → List ℕ → ℤ → List CfgInfos → Option CfgInfos
snsd_find_sw_info any host_traddr protocol [] = none
snsd_find_sw_info any host_traddr protocol (c ∷ cs) =
    let rest = snsd_find_sw_info any host_traddr protocol cs in
    if any
    then some c
    else if str_eq host_traddr (host_traddr_of c) && same_int protocol (protocol_of c)
    then some c
    else rest

-- `snsd_get_any_protocol`: RoCE by default.
unfoldable pub snsd_get_any_protocol : Config → ℤ
snsd_get_any_protocol c = if same_int c.any_protocol (pos 0) then pos 1 else c.any_protocol

-- `snsd_cfg_free_space`.
abbrev pub free_space : Config → Config
free_space c = record c { sw_info_list = []; dc_info_list = [] }

-- The steps of `snsd_cfg_init`: a step that fails ends it, and frees the lists.
abbrev then_step :
    Option (Config × Status) → (Config → Option (Config × Status)) → Option (Config × Status)
then_step none f = none
then_step (some (c, failure e)) f = some (free_space c, failure eperm)
then_step (some (c, success)) f = f c

-- `snsd_hostnqn_init`: whether the host's file is there or can be made, and the name in it.
abbrev hostnqn_set : Option (List ℕ) → List ℕ → Config → Option (Config × Status)
hostnqn_set found (b ∷ bs) c = some (c, success)
hostnqn_set none [] c = some (c, failure eperm)
hostnqn_set (some name) [] c = some (record c { snsd_hostnqn = name }, success)

abbrev hostnqn_step : Bool → Option (List ℕ) → Config → Option (Config × Status)
hostnqn_step false found c = some (c, failure eperm)
hostnqn_step true found c = hostnqn_set found c.snsd_hostnqn c

abbrev conflict_step : List ℕ → List ℕ → Config → Option (Config × Status)
conflict_step sw_head dc_head c =
    some (c, if snsd_check_conflict sw_head dc_head c then success else failure eperm)

abbrev pub empty_config : Config
empty_config = record {
  cfg = [];
  base_cfg = [];
  snsd_hostnqn = [];
  sw_info_list = [];
  dc_info_list = [];
  anyflag = false;
  any_protocol = pos 0;
}

-- `snsd_cfg_init`, on the file.
unfoldable pub snsd_cfg_init :
    Checks → List ℕ → Bool → Option (List ℕ) → List ℕ → List ℕ → Option (Config × Status)
unfolding snsd_init_base_cfg snsd_get_section_info snsd_check_conflict
snsd_cfg_init o file made hostnqn sw_head dc_head =
    then_step (snsd_get_section_info o file base (snsd_init_base_cfg empty_config)) λ c.
      then_step (snsd_get_section_info o file (net sw) c) λ c.
        then_step (snsd_get_section_info o file (net dc) c) λ c.
          then_step (hostnqn_step made hostnqn c)
            λ c. then_step (conflict_step sw_head dc_head c) λ c. some (c, success)
