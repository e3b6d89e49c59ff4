-- ===== src/Switch/FdData.antt =====
-- src/snsd_switch.c, `switch_get_fd_data`: the entry of a port with its socket open and its address
-- added, or everything given back. What the calls of the server come to is an argument.
use nvme_snsd.Base.{
  ℕ, ◌≡◌, refl, Bool, List, Option, none, some, set, get_elem?, Status, success, failure, arith,
}
use nvme_snsd.Switch.FdInfo.{PortFd, switch_get_fd_info, switch_put_fd_info}
use nvme_snsd.Switch.Unique.{Unique, entries-set_same, get_fd_info-Unique}

-- The table, the socket that is closed, and the place and the index, or none for `-EAGAIN`.
pub record FdData : Type 0 where
  pub table : List PortFd
  pub closed : Option ℕ
  pub got : Option (ℕ × ℕ)

-- `switch_put_fd_info` at a place of the table, and `-EAGAIN`.
abbrev pub release : ℕ → ℕ → ℕ → List PortFd → Option PortFd → FdData
release i index now table none = record { table = table; closed = none; got = none }
release i index now table (some e) = record {
  table = set table i (switch_put_fd_info e index now).0;
  closed = (switch_put_fd_info e index now).1;
  got = none;
}

-- After `snsd_update_sock_ip`.
abbrev with_ip : Status → ℕ → ℕ → ℕ → List PortFd → FdData
with_ip success i index now table = record { table = table; closed = none; got = some (i, index) }
with_ip (failure e) i index now table = release i index now table (get_elem? table i)

-- The entry's socket, or the one that `snsd_get_server_sock` opens.
abbrev with_sock : Option ℕ → Option ℕ → Status → ℕ → ℕ → ℕ → List PortFd → PortFd → FdData
with_sock (some fd) sock added i index now table e = with_ip added i index now table
with_sock none none added i index now table e = release i index now table (some e)
with_sock none (some fd) added i index now table e =
    with_ip added i index now (set table i (record e { fd = some fd }))

abbrev at_entry : Option ℕ → Status → ℕ → ℕ → ℕ → List PortFd → Option PortFd → FdData
at_entry sock added i index now table none = record { table = table; closed = none; got = none }
at_entry sock added i index now table (some e) = with_sock e.fd sock added i index now table e

abbrev after_get : Option ℕ → Status → ℕ → List PortFd × Option (ℕ × ℕ) → FdData
after_get sock added now (table, none) = record { table = table; closed = none; got = none }
after_get sock added now (table, some (i, index)) =
    at_entry sock added i index now table (get_elem? table i)

-- `switch_get_fd_data`.
unfoldable pub switch_get_fd_data : Option ℕ → Status → ℕ → Bool → ℕ → List PortFd → FdData
switch_get_fd_data sock added ifindex indexed now table =
    after_get sock added now (switch_get_fd_info ifindex indexed now table)

-- An entry that keeps its port keeps the table without a port that has two.
set_same-Unique :
    (table : List PortFd) (i : ℕ) (e new : PortFd)
    → get_elem? table i ≡ some e
    → new.ifindex ≡ e.ifindex
    → Unique table
    → Unique (set table i new)
set_same-Unique table i e new at same u k =
    omega (arith, u k, entries-set_same k table i e new at same)

put-ifindex : (e : PortFd) (index now : ℕ) → (switch_put_fd_info e index now).0.ifindex ≡ e.ifindex
unfolding switch_put_fd_info
put-ifindex e index now = refl

pub release-Unique :
    (i index now : ℕ) (table : List PortFd) (o : Option PortFd)
    → get_elem? table i ≡ o
    → Unique table
    → Unique (release i index now table o).table
release-Unique i index now table none at u = u
release-Unique i index now table (some e) at u =
    set_same-Unique table i e _ at (put-ifindex e index now) u

with_ip-Unique :
    (added : Status) (i index now : ℕ) (table : List PortFd)
    → Unique table
    → Unique (with_ip added i index now table).table
with_ip-Unique success i index now table u = u
with_ip-Unique (failure e) i index now table u =
    release-Unique i index now table (get_elem? table i) refl u

with_sock-Unique :
    (fd sock : Option ℕ) (added : Status) (i index now : ℕ) (table : List PortFd) (e : PortFd)
    → get_elem? table i ≡ some e
    → Unique table
    → Unique (with_sock fd sock added i index now table e).table
with_sock-Unique (some fd) sock added i index now table e at u =
    with_ip-Unique added i index now table u
with_sock-Unique none none added i index now table e at u =
    release-Unique i index now table (some e) at u
with_sock-Unique none (some fd) added i index now table e at u =
    with_ip-Unique added i index now (set table i (record e { fd = some fd }))
      (set_same-Unique table i e (record e { fd = some fd }) at refl u)

at_entry-Unique :
    (sock : Option ℕ) (added : Status) (i index now : ℕ) (table : List PortFd) (o : Option PortFd)
    → get_elem? table i ≡ o
    → Unique table
    → Unique (at_entry sock added i index now table o).table
at_entry-Unique sock added i index now table none at u = u
at_entry-Unique sock added i index now table (some e) at u =
    with_sock-Unique e.fd sock added i index now table e at u

after_get-Unique :
    (sock : Option ℕ) (added : Status) (now : ℕ) (r : List PortFd × Option (ℕ × ℕ))
    → Unique r.0
    → Unique (after_get sock added now r).table
after_get-Unique sock added now (table, none) u = u
after_get-Unique sock added now (table, some (i, index)) u =
    at_entry-Unique sock added i index now table (get_elem? table i) refl u

-- Opening the socket of a port and adding its address, whatever fails in it, never leaves a port
-- with two entries.
pub get_fd_data-Unique :
    (sock : Option ℕ) (added : Status) (ifindex : ℕ) (indexed : Bool) (now : ℕ)
    (table : List PortFd)
    → Unique table
    → Unique (switch_get_fd_data sock added ifindex indexed now table).table
unfolding switch_get_fd_data
get_fd_data-Unique sock added ifindex indexed now table u =
    after_get-Unique sock added now (switch_get_fd_info ifindex indexed now table)
      (get_fd_info-Unique ifindex indexed now table u)
