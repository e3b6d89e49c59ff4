-- ===== src/Discovery/Unique.antt =====
-- Ports with different names or addresses, src/snsd_mgt.c: finding, replacing and removing one.
use nvme_snsd.Base.{
  ℕ, zero, suc, ◌+◌, ◌≡◌, inl, inr, refl, sym, ap, subst, ◌∙◌, false, ◌&&◌, List, [], ◌∷◌, ◌++◌,
  length, get_elem?, set, remove_at, none, some, All, All-append, All-set, All-remove_at, All-get,
  All-map_pred, arith, Bool-cases,
}
use nvme_snsd.Net.{mem_eq}
use nvme_snsd.Config.Text.{str_eq}
use nvme_snsd.Discovery.Poll.{Port, is_same, find_port}

-- No two ports have the same name and address.
abbrev pub Unique : List Port → Type 0
Unique [] = Unit
Unique (p ∷ ps) = All (λ (q : Port). is_same q.name q.ip p ≡ false) ps × Unique ps

-- The place of a port.
pub find_port-get :
    (name ip : List ℕ) (ports : List Port) (j i : ℕ)
    → find_port name ip ports j ≡ some i
    → (n : ℕ) × (p : Port) × (i ≡ j + n) × (get_elem? ports n ≡ some p)
unfolding find_port
find_port-get name ip [] j i e = absurd (cc)
find_port-get name ip (p ∷ ps) j i e = elim (Bool-cases (is_same name ip p)) [
  | inl here ↦ (0, p, ground arith, refl)
  | inr other ↦
      let (n, q, at, got) = find_port-get name ip ps (suc j) i (ground arith) in
      (suc n, q, omega arith, got)
]

pub find_port-none :
    (name ip : List ℕ) (ports : List Port) (j : ℕ)
    → find_port name ip ports j ≡ none
    → All (λ p. is_same name ip p ≡ false) ports
unfolding find_port
find_port-none name ip [] j e = tt
find_port-none name ip (p ∷ ps) j e = elim (Bool-cases (is_same name ip p)) [
  | inl here ↦ absurd (ground arith)
  | inr other ↦ (other, find_port-none name ip ps (suc j) (ground arith))
]

pub Unique-append :
    (new : Port) (ports : List Port)
    → All (λ p. is_same new.name new.ip p ≡ false) ports
    → Unique ports
    → Unique (ports ++ new ∷ [])
Unique-append new [] h u = (tt, tt)
Unique-append new (p ∷ ps) h u = (
  All-append (λ (q : Port). is_same q.name q.ip p ≡ false) ps (new ∷ []) u.0 (h.0, tt),
  Unique-append new ps h.1 u.1,
)

pub Unique-remove_at : (ports : List Port) (i : ℕ) → Unique ports → Unique (remove_at ports i)
Unique-remove_at [] i u = u
Unique-remove_at (p ∷ ps) zero u = u.1
Unique-remove_at (p ∷ ps) (suc i) u = (
  All-remove_at (λ (q : Port). is_same q.name q.ip p ≡ false) ps i u.0,
  Unique-remove_at ps i u.1,
)

-- The test of a name and an address reads nothing else of a port.
is_same-key :
    (name ip : List ℕ) (p q : Port)
    → q.name ≡ p.name
    → q.ip ≡ p.ip
    → is_same name ip p ≡ false
    → is_same name ip q ≡ false
is_same-key name ip p q e f h =
    subst (λ n. (str_eq n name && mem_eq 4 q.ip ip) ≡ false) (sym e)
      (subst (λ a. (str_eq p.name name && mem_eq 4 a ip) ≡ false) (sym f) h)

is_same-of :
    (x p q : Port)
    → q.name ≡ p.name
    → q.ip ≡ p.ip
    → is_same p.name p.ip x ≡ false
    → is_same q.name q.ip x ≡ false
is_same-of x p q e f h =
    subst (λ n. is_same n q.ip x ≡ false) (sym e)
      (subst (λ a. is_same p.name a x ≡ false) (sym f) h)

pub Unique-set :
    (ports : List Port) (i : ℕ) (p q : Port)
    → get_elem? ports i ≡ some p
    → q.name ≡ p.name
    → q.ip ≡ p.ip
    → Unique ports
    → Unique (set ports i q)
Unique-set [] i p q e name ip u = u
Unique-set (x ∷ ps) zero p q e name ip u =
    let same : x ≡ p = cc in
    (
      All-map_pred (λ (r : Port). is_same r.name r.ip x ≡ false)
          (λ (r : Port). is_same r.name r.ip q ≡ false)
          (λ r.
            is_same-key r.name r.ip x q (name ∙ sym (ap (λ (y : Port). y.name) same))
              (ip ∙ sym (ap (λ (y : Port). y.ip) same)))
          ps u.0,
      u.1,
    )
Unique-set (x ∷ ps) (suc i) p q e name ip u = (
  All-set (λ (r : Port). is_same r.name r.ip x ≡ false) ps i q
      (is_same-of x p q name ip (All-get (λ (r : Port). is_same r.name r.ip x ≡ false) ps i u.0 e))
      u.0,
  Unique-set ps i p q e name ip u.1,
)

pub get_elem?-set :
    (ports : List Port) (i : ℕ) (p q : Port)
    → get_elem? ports i ≡ some p
    → get_elem? (set ports i q) i ≡ some q
get_elem?-set [] i p q e = cc
get_elem?-set (x ∷ ps) zero p q e = refl
get_elem?-set (x ∷ ps) (suc i) p q e = get_elem?-set ps i p q e

pub get_elem?-append :
    (ports : List Port) (p : Port) → get_elem? (ports ++ p ∷ []) (length ports) ≡ some p
get_elem?-append [] p = refl
get_elem?-append (x ∷ ps) p = get_elem?-append ps p
