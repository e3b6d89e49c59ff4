-- ===== src/Discovery/Kept.antt =====
-- What a poll of the interfaces keeps of the list of ports, src/snsd_mgt.c.
use nvme_snsd.Base.{
  ℕ, ◌<◌, ◌≡◌, ◌≢◌, inl, inr, refl, sym, ap, subst, ◌∙◌, false, ◌==◌, if_cases, List, [], ◌∷◌,
  get_elem?, set, Option, none, some, ◌>>=◌, All, All-append, All-set, All-remove_at, All-get,
  All-map_pred, Status, success, failure, arith,
}
use nvme_snsd.Net.{af_inet}
use nvme_snsd.Discovery.Poll.{
  Port, IfReq, Kernel, invalid_vlan, snsd_get_new, find_port, no_longer_new, put_port, old_or_new,
  snsd_try_find_old, get_infos, settle_port, after_infos, at_port, poll_all, with_table, with_group,
  snsd_get_net_info, snsd_get_bonding_info,
}
use nvme_snsd.Discovery.Filled.{vlan_of, Filled, HoldsOr, get_infos-Filled}
use nvme_snsd.Discovery.Unique.{
  Unique, find_port-get, find_port-none, Unique-append, Unique-remove_at, Unique-set, get_elem?-set,
  get_elem?-append,
}

-- A port of this poll has the VLAN that the table gives its name.
abbrev pub Dated : List ℕ → ℕ → Port → Type 0
Dated table count p = p.count ≡ count → (p.vlan ≡ vlan_of table p.name) × (p.vlan ≢ invalid_vlan)

module _ (k : Kernel) (E : Type 0) (full : (name : List ℕ) → k.slaves_of name ≡ some none → E)
    (group : List (List ℕ)) (table : List ℕ) (count : ℕ) (word : count < 4294967296) where
  abbrev Inv : List Port → Type 0
  Inv ports = Unique ports × All (Dated table count) ports

  -- A port in the list, at this place.
  abbrev Placed : List Port × ℕ → Type 0
  Placed (ports, i) = Inv ports × ((p : Port) × (get_elem? ports i ≡ some p))

  Inv-set :
      (ports : List Port) (i : ℕ) (p q : Port)
      → Inv ports
      → get_elem? ports i ≡ some p
      → q.name ≡ p.name
      → q.ip ≡ p.ip
      → Dated table count q
      → Inv (set ports i q)
  Inv-set ports i p q inv e name ip dated =
      (Unique-set ports i p q e name ip inv.0, All-set (Dated table count) ports i q dated inv.1)

  old_or_new-Placed :
      (ifr : IfReq) (ports : List Port) (o : Option ℕ)
      → find_port ifr.ifr_name ifr.sin_addr ports 0 ≡ o
      → Inv ports
      → Placed (old_or_new count ifr ports o)
  old_or_new-Placed ifr ports none e inv =
      let new = snsd_get_new count ifr in
      (
        (
          Unique-append new ports (find_port-none ifr.ifr_name ifr.sin_addr ports 0 e) inv.0,
          All-append (Dated table count) ports (new ∷ []) inv.1 (λ c. absurd (omega arith), tt),
        ),
        (new, get_elem?-append ports new),
      )
  old_or_new-Placed ifr ports (some i) e inv =
      let (n, p, at, got) = find_port-get ifr.ifr_name ifr.sin_addr ports 0 i e in
      let here : get_elem? ports i ≡ some p =
        subst (λ m. get_elem? ports m ≡ some p) (omega arith) got in
      let q : Port = record p { is_new = false } in
      subst (λ o. Placed (put_port ports i (no_longer_new o), i)) (sym here)
        (
          Inv-set ports i p q inv here refl refl (All-get (Dated table count) ports i inv.1 here),
          (q, get_elem?-set ports i p q here),
        )

  try_find_old-Placed :
      (ifr : IfReq) (ports : List Port) → Inv ports → Placed (snsd_try_find_old count ifr ports)
  unfolding snsd_try_find_old
  try_find_old-Placed ifr ports inv = old_or_new-Placed ifr ports _ refl inv

  Filled-Dated :
      (p : Port) (r : Port × Status)
      → Filled (vlan_of table p.name) p r
      → Dated table count p
      → Dated table count r.0
  Filled-Dated p r f d c =
      let (v, valid) = d (sym f.like.2 ∙ c) in
      let own : vlan_of table r.0.name ≡ vlan_of table p.name = ap (vlan_of table) f.like.0 in
      let got : r.0.vlan ≡ vlan_of table p.name = elim f.from [ inl e ↦ e ∙ v | inr e ↦ e ] in
      (got ∙ sym own, λ bad. valid (v ∙ sym got ∙ bad))

  settle_port-Inv :
      (ports : List Port) (i : ℕ) (p q : Port)
      → Inv ports
      → get_elem? ports i ≡ some p
      → Filled (vlan_of table p.name) p (q, success)
      → Inv (settle_port k count ports i q)
  settle_port-Inv ports i p q inv e f =
      let dated = Filled-Dated p (q, success) f (All-get (Dated table count) ports i inv.1 e) in
      if_cases Inv (q.vlan == invalid_vlan)
        (λ _.
          if_cases Inv q.is_new
            (λ _. (Unique-remove_at ports i inv.0, All-remove_at (Dated table count) ports i inv.1))
            λ _. Inv-set ports i p q inv e f.like.0 f.like.1 dated)
        λ valid.
          Inv-set ports i p (record q { protocol = k.any_protocol; count = count }) inv e f.like.0
            f.like.1
            λ _. (f.done refl ∙ sym (ap (vlan_of table) f.like.0), λ bad. absurd (ground arith))

  after_infos-Inv :
      (ports : List Port) (i : ℕ) (p : Port) (next : List Port → Option (List Port × Status))
      (o : Option (Port × Status))
      → Inv ports
      → get_elem? ports i ≡ some p
      → ((qs : List Port) → Inv qs → HoldsOr E (λ r. Inv r.0) (next qs))
      → HoldsOr E (Filled (vlan_of table p.name) p) o
      → HoldsOr E (λ r. Inv r.0) (after_infos k count ports i next o)
  after_infos-Inv ports i p next none inv e go h = h
  after_infos-Inv ports i p next (some (q, failure x)) inv e go f =
      Inv-set ports i p q inv e f.like.0 f.like.1
        (Filled-Dated p (q, failure x) f (All-get (Dated table count) ports i inv.1 e))
  after_infos-Inv ports i p next (some (q, success)) inv e go f =
      go (settle_port k count ports i q) (settle_port-Inv ports i p q inv e f)

  at_port-Inv :
      (place : List Port × ℕ) (next : List Port → Option (List Port × Status))
      → Placed place
      → ((qs : List Port) → Inv qs → HoldsOr E (λ r. Inv r.0) (next qs))
      → HoldsOr E (λ r. Inv r.0) (at_port k group table count next place)
  at_port-Inv (ports, i) next (inv, (p, got)) go =
      subst
        (λ o.
          HoldsOr E (λ r. Inv r.0)
            (o >>= λ x. after_infos k count ports i next (get_infos k group table x)))
        (sym got)
        (after_infos-Inv ports i p next (get_infos k group table p) inv got go
          (get_infos-Filled k E full group table p))

  poll_all-Inv :
      (ifrs : List IfReq) (ret : Status) (ports : List Port)
      → Inv ports
      → HoldsOr E (λ r. Inv r.0) (poll_all k group table count ifrs ret ports)
  unfolding poll_all
  poll_all-Inv [] ret ports inv = inv
  poll_all-Inv (ifr ∷ ifrs) ret ports inv =
      if_cases (HoldsOr E (λ r. Inv r.0)) (ifr.family == af_inet)
        (λ _.
          at_port-Inv (snsd_try_find_old count ifr ports)
            (poll_all k group table count ifrs success) (try_find_old-Placed ifr ports inv)
            λ qs. poll_all-Inv ifrs success qs)
        λ _. poll_all-Inv ifrs ret ports inv

-- Before a poll no port is of it.
abbrev pub Older : ℕ → Port → Type 0
Older count p = p.count ≢ count

-- A port of this poll has a VLAN.
abbrev pub HasVlan : ℕ → Port → Type 0
HasVlan count p = p.count ≡ count → p.vlan ≢ invalid_vlan

-- The ports after a poll.
abbrev pub Polled : ℕ → List Port → Type 0
Polled count ports = Unique ports × All (HasVlan count) ports

-- A file of slaves is empty.
abbrev pub EmptyFile : Kernel → Type 0
EmptyFile k = (name : List ℕ) × (k.slaves_of name ≡ some none)

-- The outcome of a poll: a fault comes from an empty file of slaves.
abbrev pub Outcome : Kernel → ℕ → Option (List Port × Status) → Type 0
Outcome k count = HoldsOr (EmptyFile k) (λ (r : List Port × Status). Polled count r.0)

HoldsOr-mono {ℓ} :
    {A : Type ℓ} (E : Type 0) (P Q : A → Type 0) (o : Option A)
    → ((a : A) → P a → Q a)
    → HoldsOr E P o
    → HoldsOr E Q o
HoldsOr-mono E P Q none f h = h
HoldsOr-mono E P Q (some a) f h = f a h

Older-Dated :
    (table : List ℕ) (count : ℕ) (ports : List Port)
    → All (Older count) ports
    → All (Dated table count) ports
Older-Dated table count ports =
    All-map_pred (Older count) (Dated table count) (λ p old c. absurd (old c)) ports

module _ (k : Kernel) (count : ℕ) (word : count < 4294967296) where
  unpolled : (ports : List Port) → Unique ports → All (Older count) ports → Polled count ports
  unpolled ports u old =
      (u, All-map_pred (Older count) (HasVlan count) (λ p o c. absurd (o c)) ports old)

  with_table-Polled :
      (ret : Status) (ports : List Port) (group : List (List ℕ)) (o : Option (Option (List ℕ)))
      → Unique ports
      → All (Older count) ports
      → Outcome k count (with_table k count ret ports group o)
  with_table-Polled ret ports group none u old = unpolled ports u old
  with_table-Polled ret ports group (some none) u old = unpolled ports u old
  with_table-Polled ret ports group (some (some table)) u old =
      let full : (name : List ℕ) → k.slaves_of name ≡ some none → EmptyFile k =
        λ name e. (name, e) in
      HoldsOr-mono (EmptyFile k)
        (λ (r : List Port × Status). Inv k (EmptyFile k) full group table count word r.0)
        (λ (r : List Port × Status). Polled count r.0)
        (poll_all k group table count k.interfaces ret ports)
        (λ r inv.
          (inv.0, All-map_pred (Dated table count) (HasVlan count) (λ p d c. (d c).1) r.0 inv.1))
        (poll_all-Inv k (EmptyFile k) full group table count word k.interfaces ret ports
          (u, Older-Dated table count ports old))

  with_group-Polled :
      (ret : Status) (ports : List Port) (o : Option (List (List ℕ)))
      → Unique ports
      → All (Older count) ports
      → Outcome k count (with_group k count ret ports o)
  with_group-Polled ret ports none u old = unpolled ports u old
  with_group-Polled ret ports (some group) u old =
      with_table-Polled ret ports group k.vlan_config u old

  -- A poll of the interfaces has a fault only where the kernel gives an empty file of slaves. Otherwise,
  -- whatever the kernel answers, and also where it fails in the middle, no two ports have one name and one
  -- address after it if none had before, and no port that has the count of this poll is without a VLAN.
  pub get_net_info-Polled :
      (ret : Status) (ports : List Port)
      → Unique ports
      → All (Older count) ports
      → Outcome k count (snsd_get_net_info k count ret ports)
  unfolding snsd_get_net_info
  get_net_info-Polled ret ports u old =
      if_cases (Outcome k count) k.bonding_exists
        (λ _. with_group-Polled success ports (snsd_get_bonding_info k.bonding_masters) u old)
        λ _. with_group-Polled ret ports (some []) u old
