-- ===== src/Config/Words.antt =====
-- Scanning in src/snsd_cfg.c. A position in a buffer is the list of the bytes from it on, so that
-- `*offset >= bufsize` is the empty list.
use nvme_snsd.Base.{
  ℕ, zero, suc, Bool, false, ◌&&◌, ◌||◌, not, ◌==◌, if◌then◌else◌, List, [], ◌∷◌, Option, none,
  some,
}
use nvme_snsd.Config.Text.{is_space, is_newline}

-- `SNSD_CFG_SECTION_END`, or `SNSD_CFG_ITEM_END` with the new position.
pub data Skip : Type 0 where
  section_end : Skip
  item_end : List ℕ → Skip

-- The loop of `snsd_skip_invalid_comment`, in a comment or not. The end of a line ends a comment and
-- is a space.
unfoldable pub skip_from : Bool → List ℕ → Skip
skip_from in_comment [] = section_end
skip_from in_comment (c ∷ cs) =
    let comment' = if in_comment then not (is_newline c) else c == b';' in
    let rest = skip_from comment' cs in
    if not in_comment && (not (is_space c) && not (c == b';')) then item_end (c ∷ cs) else rest

-- `snsd_skip_invalid_comment`.
unfoldable pub snsd_skip_invalid_comment : List ℕ → Skip
unfolding skip_from
snsd_skip_invalid_comment [] = item_end []
snsd_skip_invalid_comment (c ∷ cs) = skip_from false (c ∷ cs)

-- The second loop of `snsd_skip_line`, after the first end of line.
unfoldable pub skip_newlines : List ℕ → Skip
skip_newlines [] = section_end
skip_newlines (c ∷ cs) =
    let rest = skip_newlines cs in if is_newline c then rest else item_end (c ∷ cs)

-- `snsd_skip_line`.
unfoldable pub snsd_skip_line : List ℕ → Skip
unfolding skip_newlines
snsd_skip_line [] = section_end
snsd_skip_line (c ∷ cs) =
    let rest = snsd_skip_line cs in if is_newline c then skip_newlines cs else rest

-- What `snsd_get_value_word` finds: a word and the new position, only blanks, or a word that does
-- not fit.
pub data Word : Type 0 where
  word : List ℕ → List ℕ → Word
  only_blanks too_long : Word

abbrev pub cons_word : ℕ → Word → Word
cons_word c (word w rest) = word (c ∷ w) rest
cons_word c only_blanks = only_blanks
cons_word c too_long = too_long

-- The blanks before the word.
unfoldable pub skip_blanks : List ℕ → Option (List ℕ)
skip_blanks [] = none
skip_blanks (c ∷ cs) = let rest = skip_blanks cs in if is_space c then rest else some (c ∷ cs)

abbrev pub ends_word : ℕ → Bool
ends_word c = (c == 0) || ((c == b';') || (c == b'='))

-- The word, for which there is room for `room` bytes; the last one is for the zero.
unfoldable pub word_from : ℕ → List ℕ → Word
word_from zero s = too_long
word_from (suc room) [] = word [] []
word_from (suc room) (c ∷ cs) =
    let rest = word_from room cs in if ends_word c then word [] (c ∷ cs) else cons_word c rest

-- `snsd_get_value_word` into a buffer of `temp_size` bytes.
abbrev pub word_after : ℕ → Option (List ℕ) → Word
word_after temp_size none = only_blanks
word_after temp_size (some s) = word_from temp_size s

unfoldable pub snsd_get_value_word : ℕ → List ℕ → Word
unfolding skip_blanks word_from
snsd_get_value_word temp_size [] = word [] []
snsd_get_value_word temp_size (c ∷ cs) = word_after temp_size (skip_blanks (c ∷ cs))

-- An item of a line: its name and its value.
pub record Item : Type 0 where
  pub name : List ℕ
  pub value : List ℕ

-- `*(tmp_info + loop) == ' ' || ... == '\t'`.
unfoldable pub skip_tabs : List ℕ → List ℕ
skip_tabs [] = []
skip_tabs (c ∷ cs) = let rest = skip_tabs cs in if (c == b' ') || (c == b'\t') then rest else c ∷ cs

abbrev item_of : List ℕ → Word → Option Item
item_of name (word value rest) = some (record { name = name; value = value })
item_of name only_blanks = none
item_of name too_long = none

-- What must follow a name: `=`, and the value.
unfoldable pub after_equal : List ℕ → List ℕ → Option Item
unfolding snsd_get_value_word
after_equal name [] = none
after_equal name (c ∷ cs) = if c == b'=' then item_of name (snsd_get_value_word 1024 cs) else none

abbrev after_left : Word → Option Item
after_left (word name rest) = after_equal name (skip_tabs rest)
after_left only_blanks = none
after_left too_long = none

-- `snsd_get_item_info`, before the item is saved; none is `-EPERM`.
unfoldable pub read_item : List ℕ → Option Item
unfolding snsd_get_value_word skip_tabs after_equal
read_item tmp_info = after_left (snsd_get_value_word 128 tmp_info)
