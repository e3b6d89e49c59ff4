-- ===== src/Config/Blank.antt =====
-- `snsd_del_blank` of src/snsd_cfg.c. The buffer under construction is the list of its bytes, the
-- last one first.
use nvme_snsd.Base.{
  ℕ, Bool, true, false, ◌&&◌, ◌||◌, not, ◌==◌, if◌then◌else◌, List, [], ◌∷◌, rev_onto,
}
use nvme_snsd.Config.Text.{is_space, is_newline}

-- `=`, `|` and the ends of lines.
abbrev pub is_separator : ℕ → Bool
is_separator c = (c == b'=') || ((c == b'|') || is_newline c)

-- `snsd_ignore_blank_before_end`: only spaces are dropped, and not tabs.
unfoldable pub snsd_ignore_blank_before_end : List ℕ → List ℕ
snsd_ignore_blank_before_end [] = []
snsd_ignore_blank_before_end (c ∷ cs) =
    let rest = snsd_ignore_blank_before_end cs in if c == b' ' then rest else c ∷ cs

-- The tests of the loop.
abbrev pub is_plain : ℕ → Bool
is_plain c = not (is_space c) && (not (c == b'=') && not (c == b'|'))

abbrev pub ends_item : ℕ → Bool
ends_item c = (c == b'=') || ((c == b'\r') || ((c == b'\n') || (c == b'|')))

-- The body of the loop: `tmp_buf` and `flag_begin` after the byte `c`.
unfoldable pub del_blank_step : ℕ → List ℕ × Bool → List ℕ × Bool
unfolding snsd_ignore_blank_before_end
del_blank_step c (tmp_buf, flag_begin) =
    if is_plain c
    then (c ∷ tmp_buf, false)
    else if ends_item c
    then (c ∷ snsd_ignore_blank_before_end tmp_buf, true)
    else if flag_begin
    then (tmp_buf, true)
    else (c ∷ tmp_buf, false)

unfoldable pub del_blank_from : List ℕ → List ℕ × Bool → List ℕ × Bool
unfolding del_blank_step
del_blank_from [] s = s
del_blank_from (c ∷ cs) s = del_blank_from cs (del_blank_step c s)

-- `snsd_del_blank`, where its temporary buffer can be allocated.
unfoldable pub snsd_del_blank : List ℕ → List ℕ
unfolding del_blank_from
snsd_del_blank buf = rev_onto (del_blank_from buf ([], true)).0 []
