-- ===== src/Discovery/Live.antt =====
-- The slaves of a bonded port that are not to be deleted, over the loops of src/snsd_mgt.c.
use nvme_snsd.Base.{
  ℕ, suc, ◌≡◌, refl, sym, ap, ◌∙◌, Bool, true, false, not, ◌&&◌, ◌||◌, if_cases, List, [], ◌∷◌,
  length, Option, none, some, pos, Status, success, failure, arith,
}
use nvme_snsd.Config.Text.{str_eq, str_eq_iff}
use nvme_snsd.Discovery.Slaves.{
  SlaveInfo, BondingInfo, snsd_seperate_slaves, cons_slave, snsd_need_new_slave, mark_deleted,
}

-- A slave of the name is there and is not to be deleted.
abbrev pub live : List ℕ → List SlaveInfo → Bool
live name [] = false
live name (s ∷ ss) = (str_eq name s.slave_name && not s.deleted) || live name ss

abbrev pub mem : List ℕ → List (List ℕ) → Bool
mem name [] = false
mem name (n ∷ ns) = str_eq name n || mem name ns

-- Where the text of the slaves is kept, the live slaves are those it names.
abbrev pub Named : Option (List ℕ) → List SlaveInfo → Type 0
Named none slaves = Unit
Named (some text) slaves = (name : List ℕ) → live name slaves ≡ mem name (snsd_seperate_slaves text)

-- The live slaves are those of the text; a port that is not bonded has no slaves; and they are counted.
pub record Current (info : BondingInfo) : Type 0 where
  pub named : Named info.bonding_slaves info.slave
  pub bonded : info.bonding_valid ≡ false → info.slave ≡ []
  pub counted : info.slaves_count ≡ pos (length info.slave)

-- What a loop over names comes to.
abbrev pub Grown : List (List ℕ) → BondingInfo → BondingInfo × Status → Type 0
Grown names info (r, success) =
    ((q : List ℕ) → live q r.slave ≡ (live q info.slave || mem q names))
    × (r.bonding_slaves ≡ info.bonding_slaves)
    × (r.bonding_valid ≡ info.bonding_valid)
    × (r.slaves_count ≡ pos (length r.slave))
Grown names info (r, failure e) =
    (r.bonding_slaves ≡ none)
    × (r.bonding_valid ≡ info.bonding_valid)
    × (r.slaves_count ≡ pos (length r.slave))

abbrev pub Restored : List ℕ → List SlaveInfo → Option (List SlaveInfo) → Type 0
Restored name ss none = Unit
Restored name ss (some rs) =
    ((q : List ℕ) → live q rs ≡ (str_eq q name || live q ss)) × (length rs ≡ length ss)

pub or_swap : (a b c : Bool) → (a || (b || c)) ≡ (b || (a || c))
or_swap true true c = refl
or_swap true false c = refl
or_swap false true c = refl
or_swap false false c = refl

pub or_move : (a b c : Bool) → ((a || b) || c) ≡ (b || (a || c))
or_move true true c = refl
or_move true false c = refl
or_move false true c = refl
or_move false false c = refl

pub or_nil : (b : Bool) → (b || false) ≡ b
or_nil true = refl
or_nil false = refl

pub found_here : (a d l : Bool) → ((a && true) || l) ≡ (a || ((a && not d) || l))
found_here true d l = refl
found_here false d l = refl

pub cons_slave-Restored :
    (name : List ℕ) (s : SlaveInfo) (ss : List SlaveInfo) (o : Option (List SlaveInfo))
    → Restored name ss o
    → Restored name (s ∷ ss) (cons_slave s o)
cons_slave-Restored name s ss none h = tt
cons_slave-Restored name s ss (some rs) h = (
  (λ q.
      let a = str_eq q s.slave_name && not s.deleted in
      ap (λ b. a || b) (h.0 q) ∙ or_swap a (str_eq q name) (live q ss)),
  ap suc h.1,
)

pub need_new-Restored :
    (name : List ℕ) (ss : List SlaveInfo) → Restored name ss (snsd_need_new_slave name ss)
unfolding snsd_need_new_slave
need_new-Restored name [] = tt
need_new-Restored name (s ∷ ss) =
    if_cases (Restored name (s ∷ ss)) (str_eq name s.slave_name)
      (λ e.
        let same : name ≡ s.slave_name = (str_eq_iff name s.slave_name).0 e in
        (
          (λ q.
              found_here (str_eq q s.slave_name) s.deleted (live q ss)
              ∙ ap (λ n. str_eq q n || live q (s ∷ ss)) (sym same)),
          refl,
        ))
      λ _. cons_slave-Restored name s ss _ (need_new-Restored name ss)

pub marked_dead : (q : List ℕ) (ss : List SlaveInfo) → live q (mark_deleted ss) ≡ false
marked_dead q [] = refl
marked_dead q (s ∷ ss) = ground (arith, marked_dead q ss)

pub length-mark_deleted : (ss : List SlaveInfo) → length (mark_deleted ss) ≡ length ss
length-mark_deleted [] = refl
length-mark_deleted (s ∷ ss) = ap suc (length-mark_deleted ss)

-- One more name, of which the slaves have become live.
pub Grown-cons :
    (name : List ℕ) (names : List (List ℕ)) (info info' : BondingInfo) (r : BondingInfo × Status)
    → ((q : List ℕ) → live q info'.slave ≡ (str_eq q name || live q info.slave))
    → info'.bonding_slaves ≡ info.bonding_slaves
    → info'.bonding_valid ≡ info.bonding_valid
    → Grown names info' r
    → Grown (name ∷ names) info r
Grown-cons name names info info' (r, success) h text valid (all, t, v, c) = (
  (λ q.
      all q
      ∙ (ap (λ b. b || mem q names) (h q)
          ∙ or_move (str_eq q name) (live q info.slave) (mem q names))),
  t ∙ text,
  v ∙ valid,
  c,
)
Grown-cons name names info info' (r, failure e) h text valid (t, v, c) = (t, v ∙ valid, c)

abbrev pub Loop : Type 0
Loop = BondingInfo → BondingInfo × Status

-- What a loop over the names promises.
abbrev pub Grows : List (List ℕ) → Loop → Type 0
Grows names loop =
    (info : BondingInfo)
    → info.slaves_count ≡ pos (length info.slave)
    → Grown names info (loop info)

abbrev pub Added : List ℕ → BondingInfo → BondingInfo × Status → Type 0
Added name info (r, success) =
    ((q : List ℕ) → live q r.slave ≡ (str_eq q name || live q info.slave))
    × (r.bonding_slaves ≡ info.bonding_slaves)
    × (r.bonding_valid ≡ info.bonding_valid)
    × (r.slaves_count ≡ pos (length r.slave))
Added name info (r, failure e) = (r ≡ info)

pub and_true : (b : Bool) → (b && true) ≡ b
and_true true = refl
and_true false = refl
