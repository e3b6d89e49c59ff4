-- ===== src/Tests/Configs.antt =====
-- Runs of src/snsd_cfg.c.
use nvme_snsd.Base.{
  ℕ, ◌≡◌, refl, arith, true, false, List, [], ◌∷◌, ◌++◌, Option, none, some, Status, success,
  replicate, All, ◌≢◌,
}
use nvme_snsd.Net.{sw}
use nvme_snsd.Config.Text.{str_eq}
use nvme_snsd.Config.Blank.{snsd_del_blank}
use nvme_snsd.Config.Clean.{Clean, del_blank-Clean}
use nvme_snsd.Config.Options.{codes, Checks}
use nvme_snsd.Config.Items.{net, Config}
use nvme_snsd.Config.File.{snsd_section_load}
use nvme_snsd.Config.Sections.{Section, render, IsSection, section_load-render}
use nvme_snsd.Config.Parse.{line_of, snsd_section_parse}
use nvme_snsd.Config.Total.{Short, Ends, section_parse-Ends}
use nvme_snsd.Config.Conflict.{snsd_check_single, empty_config, addresses, snsd_cfg_init}
use nvme_snsd.Config.Distinct.{Distinct, AnyOk, check_single_iff}

abbrev checks : Checks
checks = record {
  is_address = λ ip. true;
  nvme_para = λ name val. true;
  nvme_noarg_para = λ name val. true;
}

abbrev blanks : List ℕ
blanks = codes " --host-traddr =  10.0.0.2 | --protocol= roce"

del_blank_run : snsd_del_blank blanks ≡ codes "--host-traddr=10.0.0.2|--protocol=roce"
unfolding snsd_del_blank
del_blank_run = refl

del_blank-Clean_example : Clean (snsd_del_blank blanks)
unfolding snsd_del_blank
del_blank-Clean_example = del_blank-Clean blanks

abbrev sw_body : List ℕ
sw_body =
    codes
      "\n--host-traddr = 10.0.0.2 | --protocol = roce\n; a comment\n--host-traddr=10.0.0.4|--protocol=tcp\n"

abbrev sw_section : Section
sw_section = record { name = codes "SW"; body = sw_body }

abbrev dc_section : Section
dc_section = record {
  name = codes "DC";
  body = codes "\n--host-traddr=10.0.0.3|--traddr=10.0.0.9|--protocol=roce";
}

abbrev base_section : Section
base_section = record { name = codes "BASE"; body = codes "\n--restrain-time = 5\n" }

abbrev sections : List Section
sections = base_section ∷ sw_section ∷ dc_section ∷ []

base-IsSection : IsSection base_section
base-IsSection = record {
  short = omega arith;
  no_bracket = ground arith;
  no_zero = ground arith;
  no_open = ground arith;
}

sw-IsSection : IsSection sw_section
sw-IsSection = record {
  short = omega arith;
  no_bracket = ground arith;
  no_zero = ground arith;
  no_open = ground arith;
}

dc-IsSection : IsSection dc_section
dc-IsSection = record {
  short = omega arith;
  no_bracket = ground arith;
  no_zero = ground arith;
  no_open = ground arith;
}

section_load-render_example :
    snsd_section_load (codes "; header\n" ++ render sections) (codes "SW") ≡ some sw_body
unfolding str_eq
section_load-render_example =
    section_load-render (codes "; header\n") (codes "SW") sections (ground arith)
      (base-IsSection, (sw-IsSection, (dc-IsSection, tt))) (omega arith)

abbrev line : List ℕ
line = codes "--protocol=roce\n"

line-Short : Short line
unfolding Short line_of
line-Short = ground arith

section_parse-Ends_example : Ends (snsd_section_parse checks (net sw) line empty_config)
section_parse-Ends_example = section_parse-Ends checks (net sw) line empty_config line-Short

abbrev long_line : List ℕ
long_line = replicate 1022 b'x'

abbrev ips : List (List ℕ)
ips = codes "10.0.0.2" ∷ codes "10.0.0.3" ∷ []

abbrev Decided : Type 0
Decided = Distinct ips × All (λ ip. (ip ≢ codes "") × AnyOk false ip) ips

apart : Decided
apart = ground arith

check_single_iff_example : snsd_check_single false (codes "") ips ≡ true
check_single_iff_example = (check_single_iff false (codes "") ips).1 apart

-- The whole of a small file.
abbrev summary : Option (Config × Status) → Option (List (List ℕ) × Status)
summary none = none
summary (some (c, s)) = some (addresses c.sw_info_list ++ addresses c.dc_info_list, s)

cfg_init_run :
    summary (snsd_cfg_init checks (render sections) true (some (codes "nqn")) (codes "") (codes ""))
    ≡ some (codes "10.0.0.2" ∷ codes "10.0.0.4" ∷ codes "10.0.0.3" ∷ [], success)
unfolding snsd_cfg_init str_eq
cfg_init_run = refl
