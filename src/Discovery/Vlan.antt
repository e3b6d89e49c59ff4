-- ===== src/Discovery/Vlan.antt =====
-- The VLAN of an interface and the device below it, in the kernel's table of VLANs, src/snsd_mgt.c. A
-- place in the table is what stands from there on; the table has no zero before its end.
use nvme_snsd.Base.{
  ℕ, zero, suc, Bool, true, false, not, ◌&&◌, ◌||◌, ◌==◌, if◌then◌else◌, List, [], ◌∷◌, ◌++◌,
  length, drop, Option, none, some, ◌>>=◌, u16,
}
use nvme_snsd.Config.Text.{is_space, is_newline, starts_with}
use nvme_snsd.Config.Options.{is_digit, digits_from}

abbrev pub is_blank : ℕ → Bool
is_blank c = (c == b' ') || (c == b'\t')

-- The text up to a bar, which stands in its line and among its first n bytes.
unfoldable pub up_to_bar : ℕ → List ℕ → List ℕ → Option (List ℕ)
up_to_bar zero tmp_buff cur = none
up_to_bar (suc n) tmp_buff [] = none
up_to_bar (suc n) tmp_buff (c ∷ cs) =
    let next = up_to_bar n (tmp_buff ++ c ∷ []) cs in
    if is_newline c then none else if c == b'|' then some tmp_buff else next

abbrev pub all_blank : List ℕ → Bool
all_blank [] = true
all_blank (c ∷ cs) = is_blank c && all_blank cs

-- A text without the blanks at its end.
unfoldable pub no_tail : List ℕ → List ℕ
no_tail [] = []
no_tail (c ∷ cs) = let rest = no_tail cs in if all_blank (c ∷ cs) then [] else c ∷ rest

-- `strncmp(tmp_buff, item_name, index + 1) == 0`, for a text of `index + 1` bytes.
abbrev pub is_item : List ℕ → Option (List ℕ) → Bool
is_item item_name none = false
is_item item_name (some tmp_buff) = starts_with (no_tail tmp_buff) item_name

-- `snsd_match_vlan`; `SNSD_CFG_NAME_MAX_LEN` is 127.
unfoldable pub snsd_match_vlan : List ℕ → List ℕ → Bool
unfolding up_to_bar no_tail starts_with
snsd_match_vlan cur item_name = is_item item_name (up_to_bar 127 [] cur)

-- `strstr`: the first place where the text stands.
unfoldable pub find_str : List ℕ → List ℕ → Option (List ℕ)
unfolding starts_with
find_str item_name [] = if starts_with item_name [] then some [] else none
find_str item_name (c ∷ cs) =
    let rest = find_str item_name cs in
    if starts_with item_name (c ∷ cs) then some (c ∷ cs) else rest

abbrev pub at_place : List ℕ → (List ℕ → Option (List ℕ)) → Option (List ℕ) → Option (List ℕ)
at_place item_name next none = none
at_place item_name next (some cur) =
    if snsd_match_vlan cur item_name then some cur else next (drop (length item_name) cur)

-- `snsd_find_vlan_start`. Each round passes over the name, which is not empty, so that the length of the
-- table is fuel enough.
unfoldable pub find_start : ℕ → List ℕ → List ℕ → Option (List ℕ)
unfolding snsd_match_vlan find_str
find_start zero item_name next_buf = none
find_start (suc n) item_name [] = none
find_start (suc n) item_name (c ∷ cs) =
    at_place item_name (find_start n item_name) (find_str item_name (c ∷ cs))

abbrev pub snsd_find_vlan_start : List ℕ → List ℕ → Option (List ℕ)
snsd_find_vlan_start item_name vlan_buff = find_start (length vlan_buff) item_name vlan_buff

-- The first bar of the line, and what is behind it.
unfoldable pub at_bar : List ℕ → Option (List ℕ)
at_bar [] = none
at_bar (c ∷ cs) =
    let rest = at_bar cs in if is_newline c then none else if c == b'|' then some cs else rest

-- The bytes from the first one that passes the test, in this line or a later one.
unfoldable pub skip_to : (ℕ → Bool) → List ℕ → List ℕ
skip_to test [] = []
skip_to test (c ∷ cs) = let rest = skip_to test cs in if test c then c ∷ cs else rest

abbrev pub cons_byte : ℕ → List ℕ × List ℕ → List ℕ × List ℕ
cons_byte c (s, rest) = (c ∷ s, rest)

-- The first bytes that pass the test, n at most, and what is behind them.
unfoldable pub span : (ℕ → Bool) → ℕ → List ℕ → List ℕ × List ℕ
span test zero s = ([], s)
span test (suc n) [] = ([], [])
span test (suc n) (c ∷ cs) =
    let rest = span test n cs in if test c then cons_byte c rest else ([], c ∷ cs)

-- A text that is not empty, and what is behind it.
abbrev pub if_any : List ℕ × List ℕ → Option (List ℕ × List ℕ)
if_any ([], rest) = none
if_any (c ∷ s, rest) = some (c ∷ s, rest)

-- `snsd_fill_vlan`: the VLAN as the bits of a `short`, and the place behind it; none is SNSD_INVALID_VLAN.
-- `atoi` is that of an `int`, as the kernel writes it into a row; beyond an `int` it is exact here.
unfoldable pub snsd_fill_vlan : List ℕ → List ℕ → Option (ℕ × List ℕ)
unfolding find_start at_bar skip_to span
snsd_fill_vlan name vlan_buff = do
  cur ← snsd_find_vlan_start name vlan_buff
  s ← at_bar cur
  (tmp_buff, rest) ← if_any (span is_digit 127 (skip_to is_digit s))
  some (u16 (digits_from 0 tmp_buff), rest)

-- `snsd_get_phy_ifname`, from the place behind the VLAN; `IFNAMSIZ` is 16. None is -EAGAIN.
unfoldable pub snsd_get_phy_ifname : List ℕ → Option (List ℕ)
unfolding at_bar skip_to span
snsd_get_phy_ifname cur = do
  s ← at_bar cur
  (tmp_buff, rest) ← if_any (span (λ c. not (is_space c)) 16 (skip_to (λ c. not (is_blank c)) s))
  some tmp_buff
