-- ===== src/Switch/Unique.antt =====
-- The table of sockets has one entry for each port: what `switch_get_fd_info` keeps.
use nvme_snsd.Base.{
  ℕ, zero, suc, ◌+◌, ◌≡◌, refl, ap, sym, ◌∙◌, ◌≤◌, Bool, true, false, ◌==◌, if◌then◌else◌, if_cases,
  Bool-cases, inl, inr, if_true, if_false, List, [], ◌∷◌, Option, none, some, set, get_elem?, arith,
  incr, ==_iff,
}
use nvme_snsd.Switch.FdInfo.{
  PortFd, switch_port_init, is_port, is_free, Found, existing, first_free, or_else, find_fd,
  get_found, switch_get_fd_info, claimed, take_index, claim_at,
}

-- The number of entries of a port.
unfoldable pub entries : ℕ → List PortFd → ℕ
entries ifindex [] = 0
entries ifindex (e ∷ es) = (if is_port ifindex e.ifindex then 1 else 0) + entries ifindex es

-- No port has two entries.
abbrev pub Unique : List PortFd → Type 0
Unique table = (ifindex : ℕ) → entries ifindex table ≤ 1

-- An entry that keeps its port changes no count.
pub entries-set_same :
    (ifindex : ℕ) (table : List PortFd) (i : ℕ) (e new : PortFd)
    → get_elem? table i ≡ some e
    → new.ifindex ≡ e.ifindex
    → entries ifindex (set table i new) ≡ entries ifindex table
unfolding entries
entries-set_same ifindex [] i e new h same = refl
entries-set_same ifindex (x ∷ xs) zero e new h same =
    let p : new.ifindex ≡ x.ifindex = cc in
    ap (λ o. (if is_port ifindex o then 1 else 0) + entries ifindex xs) p
entries-set_same ifindex (x ∷ xs) (suc i) e new h same =
    omega (arith, entries-set_same ifindex xs i e new h same)

-- An entry that goes to a port adds at most itself, and to no other count.
entries-set_le :
    (ifindex : ℕ) (table : List PortFd) (i : ℕ) (new : PortFd)
    → entries ifindex (set table i new)
      ≤ (if is_port ifindex new.ifindex then 1 else 0) + entries ifindex table
unfolding entries
entries-set_le ifindex [] i new = omega arith
entries-set_le ifindex (x ∷ xs) zero new = ground arith
entries-set_le ifindex (x ∷ xs) (suc i) new = omega (arith, entries-set_le ifindex xs i new)

-- What the search promises of a table whose entries before `i` are behind it.
FoundOk : ℕ → List PortFd → ℕ → Found → Type 0
FoundOk ifindex es i (existing j e) =
    (k : ℕ) × (j ≡ i + k) × (get_elem? es k ≡ some e) × (is_port ifindex e.ifindex ≡ true)
FoundOk ifindex es i (first_free free) = entries ifindex es ≡ 0

shift :
    (ifindex : ℕ) (e : PortFd) (es : List PortFd) (i : ℕ) (found : Found)
    → is_port ifindex e.ifindex ≡ false
    → FoundOk ifindex es (suc i) found
    → FoundOk ifindex (e ∷ es) i found
unfolding FoundOk entries
shift ifindex e es i (existing j x) other (k, at, here, port) =
    (suc k, omega (arith, at), here, port)
shift ifindex e es i (first_free free) other none_left =
    omega (arith, none_left, if_false {A = ℕ} 1 0 other)

find_fd-FoundOk :
    (ifindex now : ℕ) (es : List PortFd) (i : ℕ) (free : Option ℕ)
    → FoundOk ifindex es i (find_fd ifindex now es i free)
unfolding find_fd FoundOk entries
find_fd-FoundOk ifindex now [] i free = refl
find_fd-FoundOk ifindex now (e ∷ es) i free =
    let Q = FoundOk ifindex (e ∷ es) i in
    if_cases Q (is_port ifindex e.ifindex) (λ port. (0, omega arith, refl, port))
      λ other.
        if_cases Q (is_free now e)
          (λ _.
            shift ifindex e es i _ other (find_fd-FoundOk ifindex now es (suc i) (or_else free i)))
          (λ _. shift ifindex e es i _ other (find_fd-FoundOk ifindex now es (suc i) free))

-- The place of the entry from the start of the table.
found_here :
    (table : List PortFd) (k i : ℕ) (e : PortFd)
    → i ≡ 0 + k
    → get_elem? table k ≡ some e
    → get_elem? table i ≡ some e
found_here table k i e at here =
    let same : i ≡ k = omega (arith, at) in ap (get_elem? table) same ∙ here

take_index-Unique :
    (i : ℕ) (e : PortFd) (table : List PortFd) (r : ℕ × ℕ)
    → get_elem? table i ≡ some e
    → Unique table
    → Unique (take_index i e table r).0
take_index-Unique i e table (zero, m) h u = u
take_index-Unique i e table (suc index, m) h u = λ k. omega (
  arith,
  u k,
  entries-set_same k table i e (record e { index_map = m; refs = incr e.refs }) h refl,
)

claimed_count :
    (k ifindex : ℕ) (table : List PortFd) (i : ℕ) (new : PortFd)
    → new.ifindex ≡ some ifindex
    → entries ifindex table ≡ 0
    → entries k table ≤ 1
    → entries k (set table i new) ≤ 1
claimed_count k ifindex table i new port h u = elim (Bool-cases (ifindex == k)) [
  | inl same ↦
      let same' : ifindex ≡ k = (==_iff ifindex k).0 same in
      let none_left : entries k table ≡ 0 = ap (λ p. entries p table) (sym same') ∙ h in
      omega (
        arith,
        entries-set_le k table i new,
        none_left,
        if_true {A = ℕ} 1 0 (ap (is_port k) port ∙ same),
      )
  | inr other ↦
      omega
        (arith, u, entries-set_le k table i new, if_false {A = ℕ} 1 0 (ap (is_port k) port ∙ other))
]

claim_at-Unique :
    (ifindex : ℕ) (indexed : Bool) (i : ℕ) (table : List PortFd) (o : Option PortFd)
    → entries ifindex table ≡ 0
    → Unique table
    → Unique (claim_at ifindex indexed i table o).0
claim_at-Unique ifindex indexed i table none h u = u
claim_at-Unique ifindex true i table (some e) h u =
    λ k. claimed_count k ifindex table i (claimed ifindex true e) refl h (u k)
claim_at-Unique ifindex false i table (some e) h u =
    λ k. claimed_count k ifindex table i (claimed ifindex false e) refl h (u k)

get_found-Unique :
    (ifindex : ℕ) (indexed : Bool) (table : List PortFd) (found : Found)
    → FoundOk ifindex table 0 found
    → Unique table
    → Unique (get_found ifindex indexed table found).0
unfolding get_found FoundOk
get_found-Unique ifindex true table (existing i e) (k, at, here, port) u =
    take_index-Unique i e table _ (found_here table k i e at here) u
get_found-Unique ifindex false table (existing i e) (k, at, here, port) u = λ j. omega (
  arith,
  u j,
  entries-set_same j table i e (record e { refs = incr e.refs }) (found_here table k i e at here)
      refl,
)
get_found-Unique ifindex true table (first_free none) h u = u
get_found-Unique ifindex false table (first_free none) h u = u
get_found-Unique ifindex true table (first_free (some i)) h u =
    claim_at-Unique ifindex true i table _ h u
get_found-Unique ifindex false table (first_free (some i)) h u =
    claim_at-Unique ifindex false i table _ h u

-- Taking an entry for a port, with or without an index, never leaves a port with two entries.
pub get_fd_info-Unique :
    (ifindex : ℕ) (indexed : Bool) (now : ℕ) (table : List PortFd)
    → Unique table
    → Unique (switch_get_fd_info ifindex indexed now table).0
unfolding switch_get_fd_info
get_fd_info-Unique ifindex indexed now table u =
    get_found-Unique ifindex indexed table (find_fd ifindex now table 0 none)
      (find_fd-FoundOk ifindex now table 0 none) u

-- The initial table has no entry of any port.
pub port_init-Unique : (n : ℕ) → Unique (switch_port_init n)
unfolding switch_port_init entries
port_init-Unique zero k = omega arith
port_init-Unique (suc n) k = omega (arith, port_init-Unique n k)
