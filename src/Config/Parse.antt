-- ===== src/Config/Parse.antt =====
-- Parsing a section, and the configuration as a whole, of src/snsd_cfg.c. `none` is a fault: a write
-- outside a buffer, or a loop that has not ended within its fuel.
use nvme_snsd.Base.{
  ℕ, zero, suc, leb, if◌then◌else◌, List, [], ◌∷◌, length, Option, none, some, Status, success,
  failure, eperm, c_string,
}
use nvme_snsd.Config.Text.{is_newline}
use nvme_snsd.Config.Blank.{snsd_del_blank}
use nvme_snsd.Config.File.{snsd_section_load}
use nvme_snsd.Config.Words.{Skip, section_end, item_end, snsd_skip_invalid_comment, snsd_skip_line}
use nvme_snsd.Config.Options.{Checks}
use nvme_snsd.Config.Items.{SectionKind, section_name, Config, snsd_get_format_info}

-- The bytes up to the end of the line, and the rest from there on.
unfoldable pub line_of : List ℕ → List ℕ × List ℕ
line_of [] = ([], [])
line_of (c ∷ cs) =
    let (line, rest) = line_of cs in if is_newline c then ([], c ∷ cs) else (c ∷ line, rest)

-- `SNSD_CFG_VALUE_MAX_LEN`, the size of `tmp_line`.
abbrev pub tmp_line_size : ℕ
tmp_line_size = 1023

-- `snsd_split_with_sign`: the line is copied to `tmp_line`, with a zero after it, whatever its length.
abbrev pub line_status : Config × Status → Config × Status
line_status (c, success) = (c, success)
line_status (c, failure e) = (c, failure eperm)

unfoldable pub snsd_split_with_sign :
    Checks → SectionKind → List ℕ → Config → Option ((Config × Status) × List ℕ)
unfolding line_of snsd_get_format_info
snsd_split_with_sign o kind buf c =
    let (line, rest) = line_of buf in
    if leb tmp_line_size (length line)
    then none
    else some (line_status (snsd_get_format_info o kind (c_string line) c), rest)

-- What follows a line in `snsd_section_parse`.
abbrev pub next_line :
    (List ℕ → Config → Option (Config × Status)) → Skip → Config → Option (Config × Status)
next_line again section_end c = some (c, success)
next_line again (item_end rest) c = again rest c

abbrev pub after_line :
    (List ℕ → Config → Option (Config × Status))
    → Option ((Config × Status) × List ℕ)
    → Option (Config × Status)
after_line again none = none
after_line again (some ((c, failure e), rest)) = some (c, failure eperm)
after_line again (some ((c, success), rest)) = next_line again (snsd_skip_line rest) c

-- The loop of `snsd_section_parse`, at a position in the section.
abbrev pub at_item :
    Checks
    → SectionKind
    → (List ℕ → Config → Option (Config × Status))
    → Skip
    → Config
    → Option (Config × Status)
at_item o kind again section_end c = some (c, success)
at_item o kind again (item_end buf) c = after_line again (snsd_split_with_sign o kind buf c)

unfoldable pub parse_from : ℕ → Checks → SectionKind → List ℕ → Config → Option (Config × Status)
unfolding snsd_skip_invalid_comment snsd_split_with_sign snsd_skip_line
parse_from zero o kind buf c = none
parse_from (suc fuel) o kind [] c = some (c, success)
parse_from (suc fuel) o kind (b ∷ bs) c =
    at_item o kind (parse_from fuel o kind) (snsd_skip_invalid_comment (b ∷ bs)) c

-- `snsd_section_parse`. Each round takes at least one byte.
unfoldable pub snsd_section_parse :
    Checks → SectionKind → List ℕ → Config → Option (Config × Status)
unfolding parse_from
snsd_section_parse o kind buf c = parse_from (suc (length buf)) o kind buf c

abbrev parse_loaded : Checks → SectionKind → Option (List ℕ) → Config → Option (Config × Status)
parse_loaded o kind none c = some (c, failure eperm)
parse_loaded o kind (some buf) c = snsd_section_parse o kind (snsd_del_blank buf) c

-- `snsd_get_section_info`, on the file.
unfoldable pub snsd_get_section_info :
    Checks → List ℕ → SectionKind → Config → Option (Config × Status)
unfolding snsd_section_load section_name snsd_del_blank snsd_section_parse
snsd_get_section_info o file kind c =
    parse_loaded o kind (snsd_section_load file (section_name kind)) c
