-- ===== src/Discovery/Current.antt =====
-- The slaves of a bonded port are those that the kernel's file names.
use nvme_snsd.Base.{
  ℕ, ◌≡◌, refl, sym, ap, subst, ◌∙◌, Bool, true, false, not, ◌&&◌, ◌||◌, leb, if_cases, if_true,
  if_false, List, [], ◌∷◌, length, Option, none, some, pos, incr, Status, success, failure, arith,
  Holds,
}
use nvme_snsd.Config.Text.{str_eq, str_eq_iff}
use nvme_snsd.Discovery.Slaves.{
  SlaveInfo, BondingInfo, snsd_seperate_slaves, mark_deleted, after_create, add_slave,
  snsd_create_slave, create_all, snsd_get_slave, or_create, verify_all, verify_changed,
  compare_text, snsd_verify_slave, snsd_check_get_slave,
}
use nvme_snsd.Discovery.Live.{
  live, mem, Named, Current, Grown, Restored, or_nil, need_new-Restored, marked_dead,
  length-mark_deleted, Grown-cons, Loop, Grows, Added, and_true,
}

-- A look-up that keeps the slaves current, with the text where it succeeds.
abbrev Follows : List ℕ → BondingInfo × Status → Type 0
Follows text r = Current r.0 × (r.1 ≡ success → r.0.bonding_slaves ≡ some text)

-- What a look-up of the slaves comes to, for a port that is bonded.
abbrev pub Result : List ℕ → BondingInfo × Status → Type 0
Result text r =
    Current r.0 × (r.0.bonding_valid ≡ true → r.1 ≡ success → r.0.bonding_slaves ≡ some text)

Holds-map :
    {A : Type 0} (P Q : A → Type 0) → ((a : A) → P a → Q a) → (o : Option A) → Holds P o → Holds Q o
Holds-map P Q f none h = h
Holds-map P Q f (some a) h = f a h

module _ (ifindex_of : List ℕ → Option ℕ) where
  add_slave-Added :
      (name : List ℕ) (info : BondingInfo) (o : Option ℕ)
      → info.slaves_count ≡ pos (length info.slave)
      → Added name info (add_slave ifindex_of name info o)
  add_slave-Added name info none c = refl
  add_slave-Added name info (some i) c =
      ((λ q. ap (λ b. b || live q info.slave) (and_true (str_eq q name))), refl, refl, ap incr c)

  create-Added :
      (name : List ℕ) (info : BondingInfo)
      → info.slaves_count ≡ pos (length info.slave)
      → Added name info (snsd_create_slave ifindex_of name info)
  unfolding snsd_create_slave
  create-Added name info c =
      if_cases (Added name info) (leb 16 (length name)) (λ _. refl)
        λ _. add_slave-Added name info (ifindex_of name) c

  after_create-Grown :
      (name : List ℕ) (names : List (List ℕ)) (info : BondingInfo) (r : BondingInfo × Status)
      (loop : Loop)
      → info.slaves_count ≡ pos (length info.slave)
      → Grows names loop
      → Added name info r
      → Grown (name ∷ names) info (after_create r loop)
  after_create-Grown name names info (r, success) loop c ok (h, text, valid, c') =
      Grown-cons name names info r (loop r) h text valid (ok r c')
  after_create-Grown name names info (r, failure e) loop c ok same = (
    refl,
    ap (λ (i : BondingInfo). i.bonding_valid) same,
    ap (λ (i : BondingInfo). i.slaves_count) same
        ∙ (c ∙ ap (λ (i : BondingInfo). pos (length i.slave)) (sym same)),
  )

  create_all-Grows : (names : List (List ℕ)) → Grows names (create_all ifindex_of names)
  unfolding create_all
  create_all-Grows [] info c = ((λ q. sym (or_nil (live q info.slave))), refl, refl, c)
  create_all-Grows (name ∷ names) info c =
      after_create-Grown name names info _ (create_all ifindex_of names) c (create_all-Grows names)
        (create-Added name info c)

  or_create-Grown :
      (name : List ℕ) (names : List (List ℕ)) (info : BondingInfo) (o : Option (List SlaveInfo))
      (loop : Loop)
      → info.slaves_count ≡ pos (length info.slave)
      → Grows names loop
      → Restored name info.slave o
      → Grown (name ∷ names) info (or_create ifindex_of name info o loop)
  or_create-Grown name names info none loop c ok h =
      after_create-Grown name names info _ loop c ok (create-Added name info c)
  or_create-Grown name names info (some slaves) loop c ok h =
      let info' : BondingInfo = record info { slave = slaves } in
      Grown-cons name names info info' (loop info') h.0 refl refl (ok info' (c ∙ ap pos (sym h.1)))

  verify_all-Grows : (names : List (List ℕ)) → Grows names (verify_all ifindex_of names)
  unfolding verify_all
  verify_all-Grows [] info c = ((λ q. sym (or_nil (live q info.slave))), refl, refl, c)
  verify_all-Grows (name ∷ names) info c =
      or_create-Grown name names info _ (verify_all ifindex_of names) c (verify_all-Grows names)
        (need_new-Restored name info.slave)

  -- A loop over the names of a text, from slaves none of which is live.
  Grown-Follows :
      (text : List ℕ) (info : BondingInfo) (r : BondingInfo × Status)
      → info.bonding_valid ≡ true
      → info.bonding_slaves ≡ some text
      → ((q : List ℕ) → live q info.slave ≡ false)
      → Grown (snsd_seperate_slaves text) info r
      → Follows text r
  Grown-Follows text info (r, success) valid kept dead (h, t, v, c) = (
    record {
      named =
          subst (λ o. Named o r.slave) (sym (t ∙ kept))
            λ q. h q ∙ ap (λ b. b || mem q (snsd_seperate_slaves text)) (dead q);
      bonded = λ e. cc;
      counted = c;
    },
    λ e. t ∙ kept,
  )
  Grown-Follows text info (r, failure e) valid kept dead (t, v, c) = (
    record { named = subst (λ o. Named o r.slave) (sym t) tt; bonded = λ e. cc; counted = c },
    λ e. cc,
  )

  get_slave-Follows :
      (text : List ℕ) (info : BondingInfo)
      → Current info
      → info.slave ≡ []
      → Follows text (snsd_get_slave ifindex_of (some text) info)
  unfolding snsd_get_slave
  get_slave-Follows text info ok h =
      let info' : BondingInfo = record info {
        bonding_valid = true;
        bonding_change = true;
        bonding_slaves = some text;
      } in
      Grown-Follows text info' _ refl refl (λ q. ap (live q) h)
        (create_all-Grows (snsd_seperate_slaves text) info' ok.counted)

  changed-Follows :
      (text : List ℕ) (info : BondingInfo)
      → Current info
      → info.bonding_valid ≡ true
      → Follows text (verify_changed ifindex_of (some text) info)
  unfolding verify_all
  changed-Follows text info ok valid =
      let info' : BondingInfo = record info {
        bonding_change = true;
        bonding_slaves = some text;
        slave = mark_deleted info.slave;
      } in
      Grown-Follows text info' _ valid refl (λ q. marked_dead q info.slave)
        (verify_all-Grows (snsd_seperate_slaves text) info'
          (ok.counted ∙ ap pos (sym (length-mark_deleted info.slave))))

  compare-Follows :
      (text : List ℕ) (info : BondingInfo) (ss : List SlaveInfo) (old : Option (List ℕ))
      → Current info
      → info.bonding_valid ≡ true
      → info.bonding_slaves ≡ old
      → Holds (Follows text) (compare_text ifindex_of (some text) info ss old)
  compare-Follows text info [] old ok valid same = changed-Follows text info ok valid
  compare-Follows text info (s ∷ ss) none ok valid same = changed-Follows text info ok valid
  compare-Follows text info (s ∷ ss) (some old) ok valid same =
      if_cases (Follows text) (str_eq text old)
        (λ e. (ok, λ _. same ∙ ap some (sym ((str_eq_iff text old).0 e))))
        λ _. changed-Follows text info ok valid

  -- Whatever the kernel answers for the slaves' names: after the slaves have been looked up in a file
  -- with a text, the slaves of a bonded port that are not to be deleted are those that the kept text
  -- names, they are counted, and a port that is not bonded has none. Where the look-up succeeds for a
  -- bonded port, the kept text is the file's.
  pub check_get_slave-Follows :
      (is_bonding : Bool) (text : List ℕ) (info : BondingInfo)
      → Current info
      → Holds (Result text) (snsd_check_get_slave ifindex_of is_bonding (some (some text)) info)
  unfolding snsd_check_get_slave snsd_verify_slave
  check_get_slave-Follows is_bonding text info ok =
      if_cases (Holds (Result text)) (not info.bonding_valid && not is_bonding)
        (λ e. (ok, λ v. absurd (ground arith)))
        λ _.
          if_cases (Holds (Result text)) info.bonding_valid
            (λ v.
              Holds-map (Follows text) (Result text) (λ r f. (f.0, λ _. f.1)) _
                (compare-Follows text info info.slave info.bonding_slaves ok v refl))
            λ v. let f = get_slave-Follows text info ok (ok.bonded v) in (f.0, λ _. f.1)

-- An empty file of slaves is a null pointer, which is compared with the old text of a port that still
-- has slaves: the look-up faults.
check_get_slave-none :
    (ifindex_of : List ℕ → Option ℕ) (is_bonding : Bool) (info : BondingInfo) (s : SlaveInfo)
    (ss : List SlaveInfo) (old : List ℕ)
    → info.bonding_valid ≡ true
    → info.slave ≡ s ∷ ss
    → info.bonding_slaves ≡ some old
    → snsd_check_get_slave ifindex_of is_bonding (some none) info ≡ none
unfolding snsd_check_get_slave snsd_verify_slave
check_get_slave-none ifindex_of is_bonding info s ss old valid has text =
    if_false {b = not info.bonding_valid && not is_bonding} _ _ (ground arith)
    ∙ (if_true {b = info.bonding_valid} _ _ valid
        ∙ (ap (λ slaves. compare_text ifindex_of none info slaves info.bonding_slaves) has
            ∙ ap (compare_text ifindex_of none info (s ∷ ss)) text))
