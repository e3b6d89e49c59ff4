-- ===== src/Config/Items.antt =====
-- Lines of the configuration file: the items of a line fill `cfg`, which is then added to a list.
use nvme_snsd.Base.{
  ℕ, zero, suc, Bool, true, false, ◌&&◌, not, ◌==◌, ltb, if◌then◌else◌, List, [], ◌∷◌, ◌++◌, length,
  drop, take, set, get_elem?, Option, none, some, ℤ, pos, negsuc, Status, success, failure, eperm,
  enomem, enxio,
}
use nvme_snsd.Net.{Mode, sw, dc}
use nvme_snsd.Config.Text.{str_eq}
use nvme_snsd.Config.Words.{Item, read_item}
use nvme_snsd.Config.Options.{
  codes, Value, text, number, Check, check_base_hostnqn, Commandline, command_line_options,
  base_command_line_options, Checks, validate, store_value, find_option,
}

-- The sections that are read: `BASE`, `SW` and `DC`.
pub data SectionKind : Type 0 where
  base : SectionKind
  net : Mode → SectionKind

unfoldable pub section_name : SectionKind → List ℕ
section_name base = codes "BASE"
section_name (net sw) = codes "SW"
section_name (net dc) = codes "DC"

-- `struct snsd_cfg_infos`: the values of the options in the order of the table.
pub record CfgInfos : Type 0 where
  pub mode : Mode
  pub values : List Value

abbrev pub text_of : Option Value → List ℕ
text_of none = []
text_of (some (text s)) = s
text_of (some (number n)) = []

abbrev pub number_of : Option Value → ℤ
number_of none = pos 0
number_of (some (text s)) = pos 0
number_of (some (number n)) = n

abbrev pub traddr_of : CfgInfos → List ℕ
traddr_of c = text_of (get_elem? c.values 1)

abbrev pub host_traddr_of : CfgInfos → List ℕ
host_traddr_of c = text_of (get_elem? c.values 3)

abbrev pub protocol_of : CfgInfos → ℤ
protocol_of c = number_of (get_elem? c.values 17)

-- The static data of snsd_cfg.c. `anyflag` is whether it is `SNSD_ANY_YES`.
pub record Config : Type 0 where
  pub cfg : List Value
  pub base_cfg : List Value
  pub snsd_hostnqn : List ℕ
  pub sw_info_list : List CfgInfos
  pub dc_info_list : List CfgInfos
  pub anyflag : Bool
  pub any_protocol : ℤ

-- `snsd_init_cfg_with_default`.
abbrev pub defaults : List Commandline → List Value
defaults [] = []
defaults (line ∷ lines) = line.default_value ∷ defaults lines

unfoldable pub snsd_init_cfg : Config → Config
unfolding command_line_options
snsd_init_cfg c = record c { cfg = defaults command_line_options }

unfoldable pub snsd_init_base_cfg : Config → Config
unfolding base_command_line_options
snsd_init_base_cfg c = record c { base_cfg = defaults base_command_line_options }

-- `snsd_check_base_hostnqn_validity` copies the bytes of the name over the old ones.
abbrev note_hostnqn : Check → List ℕ → Config → Config
note_hostnqn check_base_hostnqn val c = record c {
  snsd_hostnqn = val ++ drop (length val) c.snsd_hostnqn;
}
note_hostnqn _ val c = c

abbrev options : SectionKind → List Commandline
options base = base_command_line_options
options (net mode) = command_line_options

abbrev store_at : SectionKind → ℕ → Value → Config → Config
store_at base i v c = record c { base_cfg = set c.base_cfg i v }
store_at (net mode) i v c = record c { cfg = set c.cfg i v }

abbrev stored : SectionKind → ℕ → Option Value → Config → Config × Status
stored kind i none c = (c, failure enomem)
stored kind i (some v) c = (store_at kind i v c, success)

abbrev validated : SectionKind → ℕ → Commandline → Option (List ℕ) → Config → Config × Status
validated kind i line none c = (c, failure eperm)
validated kind i line (some val) c =
    stored kind i (store_value line val) (note_hostnqn line.check_validity val c)

-- `snsd_check_and_save`.
unfoldable pub snsd_check_and_save :
    Checks → SectionKind → ℕ → Commandline → Item → Config → Config × Status
unfolding validate store_value
snsd_check_and_save o kind i line item c =
    validated kind i line (validate o line.check_validity line.drv_option item.value) c

abbrev save_found :
    Checks → SectionKind → Item → Option (ℕ × Commandline) → Config → Config × Status
save_found o kind item none c = (c, failure enxio)
save_found o kind item (some (i, line)) c = snsd_check_and_save o kind i line item c

-- `snsd_save_one_item`.
unfoldable pub snsd_save_one_item : Checks → SectionKind → Item → Config → Config × Status
unfolding snsd_check_and_save find_option
snsd_save_one_item o kind item c = save_found o kind item (find_option item.name (options kind) 0) c

-- `strcmp` with the default, or `==`.
abbrev pub same_int : ℤ → ℤ → Bool
same_int (pos a) (pos b) = a == b
same_int (pos a) (negsuc b) = false
same_int (negsuc a) (pos b) = false
same_int (negsuc a) (negsuc b) = a == b

abbrev same_value : Value → Value → Bool
same_value (text a) (text b) = str_eq a b
same_value (text a) (number b) = false
same_value (number a) (text b) = false
same_value (number a) (number b) = same_int a b

abbrev must : Mode → Commandline → Bool
must sw line = line.must_sw
must dc line = line.must_dc

-- `snsd_check_necessary`: no option that must be there has its default value.
unfoldable pub all_given : Mode → List Commandline → List Value → Bool
all_given mode [] vs = true
all_given mode (line ∷ lines) [] = false
all_given mode (line ∷ lines) (v ∷ vs) =
    not (must mode line && same_value v line.default_value) && all_given mode lines vs

unfoldable pub snsd_check_necessary : SectionKind → List Value → Bool
unfolding all_given command_line_options
snsd_check_necessary base vs = true
snsd_check_necessary (net mode) vs = all_given mode command_line_options vs

-- A switched network at the address "any", by its first three bytes.
abbrev note_any : CfgInfos → Config → Config
note_any info c =
    if str_eq (take 3 (host_traddr_of info)) (codes "any")
    then record c { anyflag = true; any_protocol = protocol_of info }
    else c

abbrev add_to_list : SectionKind → Config → Config
add_to_list base c = c
add_to_list (net sw) c =
    let info : CfgInfos = record { mode = sw; values = c.cfg } in
    let c' = note_any info c in record c' { sw_info_list = c'.sw_info_list ++ info ∷ [] }
add_to_list (net dc) c = record c {
  dc_info_list = c.dc_info_list ++ record { mode = dc; values = c.cfg } ∷ [];
}

-- `snsd_add_one_cfg`, where there is memory.
unfoldable pub snsd_add_one_cfg : SectionKind → Config → Config × Status
unfolding snsd_check_necessary
snsd_add_one_cfg kind c =
    if snsd_check_necessary kind c.cfg then (add_to_list kind c, success) else (c, failure enomem)

-- `snsd_get_format_num` for `|`.
unfoldable pub snsd_get_format_num : List ℕ → ℕ
snsd_get_format_num [] = 1
snsd_get_format_num (c ∷ cs) =
    let rest = snsd_get_format_num cs in if c == b'|' then suc rest else rest

-- `snsd_split_with_symbol` for `|`: the item, and the buffer after it; at the last item the buffer
-- stays as it is.
unfoldable pub split_at : List ℕ → List ℕ × Option (List ℕ)
split_at [] = ([], none)
split_at (c ∷ cs) =
    let (item, rest) = split_at cs in if c == b'|' then ([], some cs) else (c ∷ item, rest)

abbrev or_same : List ℕ → Option (List ℕ) → List ℕ
or_same buffer none = buffer
or_same buffer (some rest) = rest

unfoldable pub snsd_split_with_symbol : List ℕ → Option (List ℕ × List ℕ)
unfolding split_at
snsd_split_with_symbol buffer =
    let (item, rest) = split_at buffer in
    if ltb 127 (length item) then none else some (item, or_same buffer rest)

abbrev save_read : Checks → SectionKind → Option Item → Config → Config × Status
save_read o kind none c = (c, failure eperm)
save_read o kind (some item) c = snsd_save_one_item o kind item c

-- `snsd_get_item_info`; every error is `-EPERM`.
abbrev as_eperm : Config × Status → Config × Status
as_eperm (c, success) = (c, success)
as_eperm (c, failure e) = (c, failure eperm)

unfoldable pub snsd_get_item_info : Checks → SectionKind → List ℕ → Config → Config × Status
unfolding read_item snsd_save_one_item
snsd_get_item_info o kind tmp_info c = as_eperm (save_read o kind (read_item tmp_info) c)

abbrev and_then : Config × Status → (Config → Config × Status) → Config × Status
and_then (c, success) f = f c
and_then (c, failure e) f = (c, failure e)

abbrev with_item :
    Option (List ℕ × List ℕ)
    → (List ℕ → List ℕ → Config → Config × Status)
    → Config
    → Config × Status
with_item none f c = (c, failure enomem)
with_item (some (item, buffer)) f c = f item buffer c

-- The loop of `snsd_get_format_info` over `n` items.
unfoldable pub format_items : Checks → SectionKind → ℕ → List ℕ → Config → Config × Status
unfolding snsd_split_with_symbol snsd_get_item_info
format_items o kind zero buffer c = (c, success)
format_items o kind (suc n) buffer c =
    with_item (snsd_split_with_symbol buffer)
      (λ item rest c. and_then (snsd_get_item_info o kind item c) (format_items o kind n rest)) c

-- `snsd_get_format_info`.
unfoldable pub snsd_get_format_info : Checks → SectionKind → List ℕ → Config → Config × Status
unfolding format_items snsd_init_cfg snsd_add_one_cfg snsd_get_format_num
snsd_get_format_info o kind line c =
    and_then (format_items o kind (snsd_get_format_num line) line (snsd_init_cfg c))
      (snsd_add_one_cfg kind)
