-- ===== src/Switch/FdInfo.antt =====
-- src/snsd_switch.c: the table of sockets, one entry for each physical port, counted by references,
-- with a map of the indexes that the addresses of the port take.
use nvme_snsd.Base.{
  ℕ, zero, suc, ◌+◌, Bool, true, false, ◌||◌, ◌&&◌, not, ◌==◌, ltb, if◌then◌else◌, List, [], ◌∷◌,
  Option, none, some, set, get_elem?, replicate, test_bit, or_bit, clear_bit, ℤ, pos, incr, decr,
  at_least,
}

-- `struct switch_port_fd`. An `ifindex` or a `fd` of -1 is `none`.
pub record PortFd : Type 0 where
  pub ifindex : Option ℕ
  pub refs : ℤ
  pub fd : Option ℕ
  pub index_map : ℕ
  pub old_time : ℕ

-- `switch_fd_init`.
abbrev pub switch_fd_init : PortFd
switch_fd_init = record { ifindex = none; refs = pos 0; fd = none; index_map = 0; old_time = 0 }

-- `switch_port_init`; `n` is `MAX_PHY_PORT`.
unfoldable pub switch_port_init : ℕ → List PortFd
switch_port_init n = replicate n switch_fd_init

-- The loop of `switch_get_index` from bit `i` on, for `n` more bits: the index and the new map.
unfoldable pub get_index_from : ℕ → ℕ → ℕ → ℕ × ℕ
get_index_from zero i index_map = (0, index_map)
get_index_from (suc n) i index_map =
    let rest = get_index_from n (suc i) index_map in
    if test_bit index_map i then rest else (suc i, or_bit index_map i)

-- `switch_get_index`.
unfoldable pub switch_get_index : ℕ → ℕ × ℕ
unfolding get_index_from
switch_get_index index_map = get_index_from 64 0 index_map

-- `switch_put_index`.
unfoldable pub switch_put_index : ℕ → ℕ → ℕ
switch_put_index index_map zero = index_map
switch_put_index index_map (suc index) = clear_bit index_map index

abbrev pub is_port : ℕ → Option ℕ → Bool
is_port ifindex none = false
is_port ifindex (some i) = i == ifindex

abbrev pub is_none : Option ℕ → Bool
is_none none = true
is_none (some i) = false

-- The entry may be given to another port.
abbrev pub is_free : ℕ → PortFd → Bool
is_free now e = is_none e.ifindex || (not (at_least e.refs 1) && ltb e.old_time now)

-- What the loop of `switch_get_fd_info` finds: the entry of the port, or the first free place.
pub data Found : Type 0 where
  existing : ℕ → PortFd → Found
  first_free : Option ℕ → Found

abbrev pub or_else : Option ℕ → ℕ → Option ℕ
or_else none i = some i
or_else (some j) i = some j

unfoldable pub find_fd : ℕ → ℕ → List PortFd → ℕ → Option ℕ → Found
find_fd ifindex now [] i free = first_free free
find_fd ifindex now (e ∷ es) i free =
    let next = find_fd ifindex now es (suc i) free in
    let next' = find_fd ifindex now es (suc i) (or_else free i) in
    if is_port ifindex e.ifindex then existing i e else if is_free now e then next' else next

-- Takes a reference on an entry: a wanted index is taken from its map.
abbrev pub take_index : ℕ → PortFd → List PortFd → ℕ × ℕ → List PortFd × Option (ℕ × ℕ)
take_index i e table (zero, m) = (table, none)
take_index i e table (suc index, m) =
    (set table i (record e { index_map = m; refs = incr e.refs }), some (i, suc index))

-- A free entry becomes the port's. Without an index to give, its map stays as it is.
abbrev pub claimed : ℕ → Bool → PortFd → PortFd
claimed ifindex true e = record e { refs = pos 1; ifindex = some ifindex; index_map = 1 }
claimed ifindex false e = record e { refs = pos 1; ifindex = some ifindex }

abbrev pub claim_at : ℕ → Bool → ℕ → List PortFd → Option PortFd → List PortFd × Option (ℕ × ℕ)
claim_at ifindex indexed i table none = (table, none)
claim_at ifindex indexed i table (some e) =
    (set table i (claimed ifindex indexed e), some (i, if indexed then 1 else 0))

-- `switch_get_fd_info` after its loop. `indexed` says that `index` is not NULL; the result is the place
-- of the entry and the index (0 where none is wanted), or none for NULL.
unfoldable pub get_found : ℕ → Bool → List PortFd → Found → List PortFd × Option (ℕ × ℕ)
unfolding switch_get_index
get_found ifindex true table (existing i e) = take_index i e table (switch_get_index e.index_map)
get_found ifindex false table (existing i e) =
    (set table i (record e { refs = incr e.refs }), some (i, 0))
get_found ifindex indexed table (first_free none) = (table, none)
get_found ifindex indexed table (first_free (some i)) =
    claim_at ifindex indexed i table (get_elem? table i)

-- `switch_get_fd_info`, at the time `now`.
unfoldable pub switch_get_fd_info : ℕ → Bool → ℕ → List PortFd → List PortFd × Option (ℕ × ℕ)
unfolding find_fd get_found
switch_get_fd_info ifindex indexed now table =
    get_found ifindex indexed table (find_fd ifindex now table 0 none)

-- `switch_put_fd_info`: the entry, and the socket that is closed. `LLDP_OLD_TIME +
-- LLDP_WAIT_OLD_TIME` is 130 seconds.
unfoldable pub switch_put_fd_info : PortFd → ℕ → ℕ → PortFd × Option ℕ
unfolding switch_put_index
switch_put_fd_info e index now =
    let last = not (at_least (decr e.refs) 1) in
    let closed : Option ℕ = if last then e.fd else none in
    let kept : Option ℕ = if last then none else e.fd in
    (
      record e {
        refs = decr e.refs;
        index_map = switch_put_index e.index_map index;
        fd = kept;
        old_time = now + 130;
      },
      closed,
    )
