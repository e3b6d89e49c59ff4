-- ===== src/Discovery/Filled.antt =====
-- What a poll of the interfaces makes of one port, src/snsd_mgt.c.
use nvme_snsd.Base.{
  ℕ, ◌≡◌, ◌⊎◌, inl, inr, refl, sym, subst, Bool, ◌&&◌, ◌==◌, ==_iff, if_cases, List, [], ◌∷◌,
  Option, none, some, Status, Errno, success, failure, eagain, not, arith,
}
use nvme_snsd.Discovery.Slaves.{
  BondingInfo, SlaveInfo, compare_text, read_slaves, snsd_verify_slave, snsd_check_get_slave,
}
use nvme_snsd.Discovery.Vlan.{snsd_fill_vlan, snsd_get_phy_ifname}
use nvme_snsd.Discovery.Poll.{
  Port, Kernel, invalid_vlan, snsd_is_bonding, with_mac, with_flags, snsd_get_mac_and_flags,
  with_ifindex, with_vlan, fill_index, after_slaves, with_device, mix_from, mix_if, get_infos,
}

-- The VLAN that the table gives a name.
abbrev vlan_found : Option (ℕ × List ℕ) → ℕ
vlan_found none = invalid_vlan
vlan_found (some (vlan, place)) = vlan

abbrev pub vlan_of : List ℕ → List ℕ → ℕ
vlan_of table name = vlan_found (snsd_fill_vlan name table)

-- The value of a computation that has no fault, and `E` where it has one.
abbrev pub HoldsOr {ℓ} : {A : Type ℓ} → Type 0 → (A → Type 0) → Option A → Type 0
HoldsOr E P none = E
HoldsOr E P (some a) = P a

-- Two states of one port, as far as the list looks at it.
abbrev pub Like : Port → Port → Type 0
Like p q = (q.name ≡ p.name) × (q.ip ≡ p.ip) × (q.count ≡ p.count) × (q.is_new ≡ p.is_new)

-- A port after some of its data have been asked for: its VLAN is the old one or the table's, and the
-- table's where all has been answered.
pub record Filled (vlan : ℕ) (p : Port) (r : Port × Status) : Type 0 where
  pub like : Like p r.0
  pub from : (r.0.vlan ≡ p.vlan) ⊎ (r.0.vlan ≡ vlan)
  pub done : r.1 ≡ success → r.0.vlan ≡ vlan

Like-refl : (p : Port) → Like p p
Like-refl p = (refl, refl, refl, refl)

module _ (k : Kernel) where
  failed-Filled :
      (vlan : ℕ) (p q : Port) (e : Errno)
      → Like p q
      → q.vlan ≡ p.vlan
      → Filled vlan p (q, failure e)
  failed-Filled vlan p q e l v = record { like = l; from = inl v; done = λ f. absurd cc }

  with_ifindex-Filled :
      (vlan : ℕ) (p q : Port) (o : Option ℕ)
      → Like p q
      → q.vlan ≡ vlan
      → Filled vlan p (with_ifindex k q o)
  with_ifindex-Filled vlan p q none l v = record { like = l; from = inr v; done = λ f. absurd cc }
  with_ifindex-Filled vlan p q (some i) l v = record { like = l; from = inr v; done = λ _. v }

  with_vlan-Like : (vlan : ℕ) (p q : Port) → Like p q → Like p (with_vlan k vlan q)
  with_vlan-Like vlan p q l = ground arith

  with_vlan-vlan : (vlan : ℕ) (q : Port) → (with_vlan k vlan q).vlan ≡ vlan
  with_vlan-vlan vlan q = ground (arith, ==_iff q.vlan vlan)

  fill_index-Filled :
      (vlan : ℕ) (p q : Port) (name : List ℕ) → Like p q → Filled vlan p (fill_index k q vlan name)
  fill_index-Filled vlan p q name l =
      with_ifindex-Filled vlan p (with_vlan k vlan q) (k.ifindex_of name)
        (with_vlan-Like vlan p q l) (with_vlan-vlan vlan q)

  after_slaves-Filled :
      (E : Type 0) (vlan : ℕ) (p q : Port) (name : List ℕ) (o : Option (BondingInfo × Status))
      → Like p q
      → q.vlan ≡ p.vlan
      → HoldsOr E (λ _. Unit {0}) o
      → HoldsOr E (Filled vlan p) (after_slaves k q vlan name o)
  after_slaves-Filled E vlan p q name none l v h = h
  after_slaves-Filled E vlan p q name (some (info, failure x)) l v h =
      failed-Filled vlan p (record q { bonding = info }) x l v
  after_slaves-Filled E vlan p q name (some (info, success)) l v h =
      fill_index-Filled vlan p (record q { bonding = info; phy_name = name }) name l

compare_text-Holds :
    (E : Type 0) (ifindex_of : List ℕ → Option ℕ) (text : List ℕ) (info : BondingInfo)
    (ss : List SlaveInfo) (old : Option (List ℕ))
    → HoldsOr E (λ _. Unit {0}) (compare_text ifindex_of (some text) info ss old)
compare_text-Holds E ifindex_of text info [] old = tt
compare_text-Holds E ifindex_of text info (s ∷ ss) none = tt
compare_text-Holds E ifindex_of text info (s ∷ ss) (some old) = tt

empty_text-Holds :
    (E : Type 0) (ifindex_of : List ℕ → Option ℕ) (info : BondingInfo) (ss : List SlaveInfo)
    (old : Option (List ℕ))
    → E
    → HoldsOr E (λ _. Unit {0}) (compare_text ifindex_of none info ss old)
empty_text-Holds E ifindex_of info [] old e = tt
empty_text-Holds E ifindex_of info (s ∷ ss) none e = tt
empty_text-Holds E ifindex_of info (s ∷ ss) (some old) e = e

read_slaves-Holds :
    (E : Type 0) (ifindex_of : List ℕ → Option ℕ) (slaves : Option (Option (List ℕ)))
    (info : BondingInfo)
    → (slaves ≡ some none → E)
    → HoldsOr E (λ _. Unit {0}) (read_slaves ifindex_of slaves info)
unfolding snsd_verify_slave
read_slaves-Holds E ifindex_of none info full = tt
read_slaves-Holds E ifindex_of (some none) info full =
    if_cases (HoldsOr E (λ _. Unit {0})) info.bonding_valid
      (λ _. empty_text-Holds E ifindex_of info info.slave info.bonding_slaves (full refl)) λ _. tt
read_slaves-Holds E ifindex_of (some (some text)) info full =
    if_cases (HoldsOr E (λ _. Unit {0})) info.bonding_valid
      (λ _. compare_text-Holds E ifindex_of text info info.slave info.bonding_slaves) λ _. tt

check_get_slave-Holds :
    (E : Type 0) (ifindex_of : List ℕ → Option ℕ) (is_bonding : Bool)
    (slaves : Option (Option (List ℕ))) (info : BondingInfo)
    → (slaves ≡ some none → E)
    → HoldsOr E (λ _. Unit {0}) (snsd_check_get_slave ifindex_of is_bonding slaves info)
unfolding snsd_check_get_slave
check_get_slave-Holds E ifindex_of is_bonding slaves info full =
    if_cases (HoldsOr E (λ _. Unit {0})) (not info.bonding_valid && not is_bonding) (λ _. tt)
      λ _. read_slaves-Holds E ifindex_of slaves info full

module _ (k : Kernel) (E : Type 0) (full : (name : List ℕ) → k.slaves_of name ≡ some none → E)
    (group : List (List ℕ)) (table : List ℕ) where
  with_device-Filled :
      (vlan : ℕ) (p q : Port) (o : Option (List ℕ))
      → Like p q
      → q.vlan ≡ p.vlan
      → HoldsOr E (Filled vlan p) (with_device k group q vlan o)
  with_device-Filled vlan p q none l v = failed-Filled k vlan p q eagain l v
  with_device-Filled vlan p q (some name) l v =
      let is_bonding = snsd_is_bonding group name in
      after_slaves-Filled k E vlan p q name
        (snsd_check_get_slave k.ifindex_of is_bonding (k.slaves_of name) q.bonding) l v
        (check_get_slave-Holds E k.ifindex_of is_bonding (k.slaves_of name) q.bonding (full name))

  mix_from-Filled :
      (p q : Port) (o : Option (ℕ × List ℕ))
      → Like p q
      → q.vlan ≡ p.vlan
      → HoldsOr E (Filled (vlan_found o) p) (mix_from k group q o)
  mix_from-Filled p q none l v = fill_index-Filled k invalid_vlan p q q.name l
  mix_from-Filled p q (some (vlan, place)) l v =
      if_cases (HoldsOr E (Filled vlan p)) (vlan == invalid_vlan)
        (λ e.
          subst (λ n. Filled n p (fill_index k q invalid_vlan q.name))
            (sym ((==_iff vlan invalid_vlan).0 e)) (fill_index-Filled k invalid_vlan p q q.name l))
        λ _. with_device-Filled vlan p q (snsd_get_phy_ifname place) l v

  mix_if-Filled :
      (p : Port) (r : Port × Status)
      → Like p r.0
      → r.0.vlan ≡ p.vlan
      → HoldsOr E (Filled (vlan_of table p.name) p) (mix_if k group table r)
  mix_if-Filled p (q, failure e) l v = failed-Filled k (vlan_of table p.name) p q e l v
  mix_if-Filled p (q, success) l v =
      subst
        (λ n.
          HoldsOr E (Filled (vlan_of table n) p) (mix_from k group q (snsd_fill_vlan q.name table)))
        l.0 (mix_from-Filled p q (snsd_fill_vlan q.name table) l v)

  with_flags-Like :
      (p : Port) (o : Option ℕ) (r : Port × Status)
      → Like p r.0 × (r.0.vlan ≡ p.vlan)
      → Like p (with_flags k o r).0 × ((with_flags k o r).0.vlan ≡ p.vlan)
  with_flags-Like p o (q, failure e) h = h
  with_flags-Like p none (q, success) h = h
  with_flags-Like p (some flags) (q, success) h = h

  with_mac-Like :
      (p : Port) (o : Option (List ℕ))
      → Like p (with_mac k p o).0 × ((with_mac k p o).0.vlan ≡ p.vlan)
  with_mac-Like p none = (Like-refl p, refl)
  with_mac-Like p (some mac) = (Like-refl p, refl)

  pub get_infos-Filled :
      (p : Port) → HoldsOr E (Filled (vlan_of table p.name) p) (get_infos k group table p)
  unfolding get_infos
  get_infos-Filled p =
      let (like, v) =
        with_flags-Like p (k.flags_of p.name) (with_mac k p (k.hwaddr p.name))
          (with_mac-Like p (k.hwaddr p.name)) in
      mix_if-Filled p (snsd_get_mac_and_flags k p) like v
