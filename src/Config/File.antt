-- ===== src/Config/File.antt =====
-- Finding and loading a section of the configuration file, src/snsd_cfg.c. A file is the list of the
-- bytes not read yet; reading it does not fail.
use nvme_snsd.Base.{
  ℕ, zero, suc, ◌==◌, leb, if◌then◌else◌, List, [], ◌∷◌, length, Option, none, some, Errno, eio,
  enomem, c_string,
}
use nvme_snsd.Config.Text.{str_eq}

-- What is read, with the rest of the file, or an error.
pub data Read : Type 0 where
  read : List ℕ → List ℕ → Read
  failed : Errno → Read

abbrev pub cons_read : ℕ → Read → Read
cons_read c (read name rest) = read (c ∷ name) rest
cons_read c (failed e) = failed e

-- `snsd_read_section_name`, with room for `n` more bytes.
unfoldable pub snsd_read_section_name : ℕ → List ℕ → Read
snsd_read_section_name zero file = failed enomem
snsd_read_section_name (suc n) [] = failed eio
snsd_read_section_name (suc n) (c ∷ file) =
    let rest = snsd_read_section_name n file in if c == b']' then read [] file else cons_read c rest

-- `snsd_read_section`: up to the next `[`, which is read too, or to the end of the file. `n` is the
-- size of the file less the bytes that are read.
unfoldable pub snsd_read_section : ℕ → List ℕ → Read
snsd_read_section zero file = failed enomem
snsd_read_section (suc n) [] = read [] []
snsd_read_section (suc n) (c ∷ file) =
    let rest = snsd_read_section n file in if c == b'[' then read [] file else cons_read c rest

-- `SNSD_MAX_SECTION_NAME_LEN`, `SNSD_CFG_FILE_MAX_SIZE`.
abbrev pub snsd_max_section_name_len : ℕ
snsd_max_section_name_len = 32

abbrev pub snsd_cfg_file_max_size : ℕ
snsd_cfg_file_max_size = 8192

-- What follows a section name in `snsd_find_section`.
unfoldable pub after_name : (List ℕ → Read) → ℕ → List ℕ → Read → Read
unfolding snsd_read_section
after_name again size section_name (failed e) = failed e
after_name again size section_name (read name file) =
    if str_eq (c_string name) section_name then snsd_read_section size file else again file

-- `snsd_find_section`: the bytes before a `[` are passed over. Each round takes a byte at least.
unfoldable pub snsd_find_section : ℕ → ℕ → List ℕ → List ℕ → Read
unfolding after_name snsd_read_section_name
snsd_find_section zero size section_name file = failed eio
snsd_find_section (suc fuel) size section_name [] = failed eio
snsd_find_section (suc fuel) size section_name (c ∷ file) =
    if c == b'['
    then after_name (snsd_find_section fuel size section_name) size section_name
        (snsd_read_section_name snsd_max_section_name_len file)
    else snsd_find_section fuel size section_name file

-- `snsd_section_load` of a file that can be opened, where there is memory: the bytes of the section.
abbrev pub section_of : Read → Option (List ℕ)
section_of (read section rest) = some section
section_of (failed e) = none

unfoldable pub snsd_section_load : List ℕ → List ℕ → Option (List ℕ)
unfolding snsd_find_section
snsd_section_load file section_name =
    if leb snsd_cfg_file_max_size (length file)
    then none
    else section_of (snsd_find_section (suc (length file)) (length file) section_name file)
