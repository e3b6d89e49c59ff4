-- ===== src/Discovery/Slaves.antt =====
-- The slaves of a bonded port, src/snsd_mgt.c: what the kernel's file of slaves says becomes a list.
use nvme_snsd.Base.{
  ℕ, zero, suc, Bool, true, false, not, ◌&&◌, ◌||◌, ◌==◌, leb, if◌then◌else◌, List, [], ◌∷◌, ◌++◌,
  Option, none, some, length, ℤ, incr, Status, success, failure, eagain,
}
use nvme_snsd.Config.Text.{str_eq}

-- `struct slave_info`; `fd_valid` and `deleted` are the bits of
-- `slave_state`, and no socket is -1.
pub record SlaveInfo : Type 0 where
  pub slave_name : List ℕ
  pub slave_ifindex : ℕ
  pub fd_index : ℕ
  pub fd : Option ℕ
  pub fd_valid : Bool
  pub deleted : Bool

-- `struct bonding_info`; `bonding_valid` and `bonding_change` are the bits of `bonding_states`.
pub record BondingInfo : Type 0 where
  pub bonding_valid : Bool
  pub bonding_change : Bool
  pub slaves_count : ℤ
  pub bonding_slaves : Option (List ℕ)
  pub slave : List SlaveInfo

-- `struct slave_info` as `snsd_create_slave` fills it.
abbrev pub new_slave : List ℕ → ℕ → SlaveInfo
new_slave slave_name ifindex = record {
  slave_name = slave_name;
  slave_ifindex = ifindex;
  fd_index = 0;
  fd = some 0;
  fd_valid = false;
  deleted = false;
}

-- The loop of `snsd_seperate_slaves`, with room for `n` more names and the bytes of the name so far. A
-- name ends at a blank or at the end of the line, which must be there.
unfoldable pub seperate_from : ℕ → List ℕ → List ℕ → List (List ℕ)
seperate_from zero name text = []
seperate_from (suc n) name [] = []
seperate_from (suc n) name (c ∷ cs) =
    let next = seperate_from n [] cs in
    let same = seperate_from (suc n) (name ++ c ∷ []) cs in
    if (c == b' ') || (c == b'\n') then name ∷ next else same

-- `snsd_seperate_slaves`; `SNSD_MAX_SLAVES` is 32.
unfoldable pub snsd_seperate_slaves : List ℕ → List (List ℕ)
unfolding seperate_from
snsd_seperate_slaves slaves = seperate_from 32 [] slaves

abbrev pub cons_slave : SlaveInfo → Option (List SlaveInfo) → Option (List SlaveInfo)
cons_slave s none = none
cons_slave s (some ss) = some (s ∷ ss)

-- `snsd_need_new_slave`: the slaves where one has the name, which is not to be deleted then, or none
-- where a new one is needed.
unfoldable pub snsd_need_new_slave : List ℕ → List SlaveInfo → Option (List SlaveInfo)
snsd_need_new_slave slave_name [] = none
snsd_need_new_slave slave_name (s ∷ ss) =
    let rest = snsd_need_new_slave slave_name ss in
    if str_eq slave_name s.slave_name
    then some (record s { deleted = false } ∷ ss)
    else cons_slave s rest

abbrev pub mark_deleted : List SlaveInfo → List SlaveInfo
mark_deleted [] = []
mark_deleted (s ∷ ss) = record s { deleted = true } ∷ mark_deleted ss

-- After a step of the loops: where it fails, the text of the slaves is given up.
abbrev pub after_create :
    BondingInfo × Status → (BondingInfo → BondingInfo × Status) → BondingInfo × Status
after_create (info, success) next = next info
after_create (info, failure e) next = (record info { bonding_slaves = none }, failure eagain)

-- `ifindex_of` is what `SIOCGIFINDEX` gives for a name.
module _ (ifindex_of : List ℕ → Option ℕ) where
  abbrev pub add_slave : List ℕ → BondingInfo → Option ℕ → BondingInfo × Status
  add_slave slave_name info none = (info, failure eagain)
  add_slave slave_name info (some ifindex) = (
    record info {
      slaves_count = incr info.slaves_count;
      slave = new_slave slave_name ifindex ∷ info.slave;
    },
    success,
  )

  -- `snsd_create_slave`, where there is memory; `IFNAMSIZ` is 16.
  unfoldable pub snsd_create_slave : List ℕ → BondingInfo → BondingInfo × Status
  snsd_create_slave slave_name info =
      if leb 16 (length slave_name)
      then (info, failure eagain)
      else add_slave slave_name info (ifindex_of slave_name)

  -- The loop of `snsd_get_slave`.
  unfoldable pub create_all : List (List ℕ) → BondingInfo → BondingInfo × Status
  unfolding snsd_create_slave
  create_all [] info = (info, success)
  create_all (name ∷ names) info = after_create (snsd_create_slave name info) (create_all names)

  -- `snsd_get_slave`; none is no text.
  abbrev pub get_text : BondingInfo → Option (List ℕ) → BondingInfo × Status
  get_text info none = (info, success)
  get_text info (some text) =
      create_all (snsd_seperate_slaves text) (record info { bonding_slaves = some text })

  unfoldable pub snsd_get_slave : Option (List ℕ) → BondingInfo → BondingInfo × Status
  unfolding create_all snsd_seperate_slaves
  snsd_get_slave slaves info =
      get_text (record info { bonding_valid = true; bonding_change = true }) slaves

  abbrev pub or_create :
      List ℕ
      → BondingInfo
      → Option (List SlaveInfo)
      → (BondingInfo → BondingInfo × Status)
      → BondingInfo × Status
  or_create name info (some slaves) next = next (record info { slave = slaves })
  or_create name info none next = after_create (snsd_create_slave name info) next

  -- The loop of `snsd_verify_slave`.
  unfoldable pub verify_all : List (List ℕ) → BondingInfo → BondingInfo × Status
  unfolding snsd_create_slave snsd_need_new_slave
  verify_all [] info = (info, success)
  verify_all (name ∷ names) info =
      or_create name info (snsd_need_new_slave name info.slave) (verify_all names)

  abbrev pub verify_text : BondingInfo → Option (List ℕ) → BondingInfo × Status
  verify_text info none = (info, success)
  verify_text info (some text) =
      verify_all (snsd_seperate_slaves text) (record info { bonding_slaves = some text })

  -- `snsd_verify_slave` where the text has changed.
  abbrev pub verify_changed : Option (List ℕ) → BondingInfo → BondingInfo × Status
  verify_changed slaves info =
      verify_text
        (record info {
          bonding_change = true;
          bonding_slaves = none;
          slave = mark_deleted info.slave;
        })
        slaves

  -- The test that the text is the old one. `strcmp` faults at no text, which is NULL.
  abbrev pub compare_text :
      Option (List ℕ)
      → BondingInfo
      → List SlaveInfo
      → Option (List ℕ)
      → Option (BondingInfo × Status)
  compare_text slaves info [] old = some (verify_changed slaves info)
  compare_text slaves info (s ∷ ss) none = some (verify_changed slaves info)
  compare_text none info (s ∷ ss) (some old) = none
  compare_text (some text) info (s ∷ ss) (some old) =
      some (if str_eq text old then (info, success) else verify_changed (some text) info)

  -- `snsd_verify_slave`; none is a fault.
  unfoldable pub snsd_verify_slave : Option (List ℕ) → BondingInfo → Option (BondingInfo × Status)
  unfolding verify_all snsd_seperate_slaves
  snsd_verify_slave slaves info = compare_text slaves info info.slave info.bonding_slaves

  -- What `snsd_get_file_info` gives: an error, or the text, which is not there for an empty file.
  abbrev pub read_slaves : Option (Option (List ℕ)) → BondingInfo → Option (BondingInfo × Status)
  read_slaves none info = some (info, failure eagain)
  read_slaves (some slaves) info =
      if info.bonding_valid
      then snsd_verify_slave slaves info
      else some (snsd_get_slave slaves info)

  -- `snsd_check_get_slave`; `is_bonding` is `snsd_is_bonding` of the port's name.
  unfoldable pub snsd_check_get_slave :
      Bool → Option (Option (List ℕ)) → BondingInfo → Option (BondingInfo × Status)
  unfolding snsd_verify_slave snsd_get_slave
  snsd_check_get_slave is_bonding slaves info =
      if not info.bonding_valid && not is_bonding
      then some (info, success)
      else read_slaves slaves info
