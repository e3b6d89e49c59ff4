-- ===== src/Server/Listener.antt =====
-- The listener table of src/snsd_server.c: one entry for each physical port, with the addresses that
-- it answers for, its receive counters and its attack monitor.
use nvme_snsd.Base.{
  ℕ, ◌+◌, Bool, true, false, ◌==◌, if◌then◌else◌, List, [], ◌∷◌, ◌++◌, Option, none, some, take,
  replicate, Status, success, failure, enxio, enodev, eminus1, u64,
}
use nvme_snsd.Net.{mem_eq}

-- `struct snsd_listener`. A `listening_fd` of -1 is `none`.
pub record Listener : Type 0 where
  pub listening_fd : Option ℕ
  pub host_ip : List (List ℕ)
  pub sll_family : ℕ
  pub sll_ifindex : ℕ
  pub sll_addr : List ℕ
  pub if_name : List ℕ
  pub rcv_cnt : ℕ
  pub last_samp_cnt : ℕ
  pub drop : Bool
  pub drop_interval : ℕ

-- `struct snsd_port_related_info`.
pub record PortRelatedInfo : Type 0 where
  pub name : List ℕ
  pub family : ℕ
  pub ip : List ℕ
  pub mac : List ℕ
  pub ifindex : ℕ

-- `SNSD_MAX_LISTENER`, `SNSD_MAX_IP_PHYPORT`.
abbrev pub snsd_max_listener : ℕ
snsd_max_listener = 64

abbrev pub snsd_max_ip_phyport : ℕ
snsd_max_ip_phyport = 64

abbrev pub zero_ip : List ℕ
zero_ip = replicate 16 0

-- A listener as `memset` and `snsd_init_listeners` leave it.
abbrev pub no_listener : Listener
no_listener = record {
  listening_fd = none;
  host_ip = replicate snsd_max_ip_phyport zero_ip;
  sll_family = 0;
  sll_ifindex = 0;
  sll_addr = replicate 8 0;
  if_name = replicate 16 0;
  rcv_cnt = 0;
  last_samp_cnt = 0;
  drop = false;
  drop_interval = 0;
}

unfoldable pub snsd_init_listeners : ℕ → List Listener
snsd_init_listeners n = replicate n no_listener

abbrev pub is_fd : ℕ → Option ℕ → Bool
is_fd fd none = false
is_fd fd (some f) = f == fd

abbrev pub is_free : Option ℕ → Bool
is_free none = true
is_free (some f) = false

-- `snsd_lookup_listener_id` and the rest of `snsd_update_server_sock`: the first free entry takes the
-- socket and the port; its addresses, counters and monitor stay as they are. `none` is `-ENXIO`.
unfoldable pub claim : ℕ → PortRelatedInfo → Listener → Listener
claim fd port l = record l {
  listening_fd = some fd;
  sll_family = port.family;
  sll_ifindex = port.ifindex;
  sll_addr = take 6 port.mac ++ 0 ∷ 0 ∷ [];
  if_name = take 15 port.name ++ 0 ∷ [];
}

unfoldable pub snsd_update_server_sock :
    ℕ → PortRelatedInfo → List Listener → List Listener × Status
unfolding claim
snsd_update_server_sock fd port [] = ([], failure enxio)
snsd_update_server_sock fd port (l ∷ ls) =
    let (ls', result) = snsd_update_server_sock fd port ls in
    if is_free l.listening_fd then (claim fd port l ∷ ls, success) else (l ∷ ls', result)

-- The entry stays taken whatever the addition to epoll comes to.
abbrev pub then_epoll : Status → List Listener × Status → List Listener × Status
then_epoll epoll (ls, failure e) = (ls, failure e)
then_epoll epoll (ls, success) = (ls, epoll)

-- `snsd_add_server`: whether the socket options can be set, and the socket added to epoll.
unfoldable pub snsd_add_server :
    Status → Status → ℕ → PortRelatedInfo → List Listener → List Listener × Status
unfolding snsd_update_server_sock
snsd_add_server (failure e) epoll fd port ls = (ls, failure e)
snsd_add_server success epoll fd port ls = then_epoll epoll (snsd_update_server_sock fd port ls)

-- `snsd_remove_server`.
unfoldable pub snsd_remove_server : ℕ → List Listener → List Listener
snsd_remove_server fd [] = []
snsd_remove_server fd (l ∷ ls) =
    let rest = snsd_remove_server fd ls in
    if is_fd fd l.listening_fd then record l { listening_fd = none } ∷ ls else l ∷ rest

-- The search for an address among those of a listener.
unfoldable pub has_ip : List ℕ → List (List ℕ) → Bool
has_ip ip [] = false
has_ip ip (h ∷ hs) = let rest = has_ip ip hs in if mem_eq 16 h ip then true else rest

abbrev pub kept : List ℕ → Option (List (List ℕ)) → Option (List (List ℕ))
kept h none = none
kept h (some hs) = some (h ∷ hs)

-- The write of an address into the first empty position, if there is one.
unfoldable pub fill_ip : List ℕ → List (List ℕ) → Option (List (List ℕ))
fill_ip ip [] = none
fill_ip ip (h ∷ hs) =
    let rest = kept h (fill_ip ip hs) in if mem_eq 16 h zero_ip then some (ip ∷ hs) else rest

-- The removal of the first entry that is the address.
unfoldable pub erase_ip : List ℕ → List (List ℕ) → List (List ℕ)
erase_ip ip [] = []
erase_ip ip (h ∷ hs) =
    let rest = erase_ip ip hs in if mem_eq 16 h ip then zero_ip ∷ hs else h ∷ rest

abbrev pub filled : List (List ℕ) → Option (List (List ℕ)) → List (List ℕ) × Status
filled ips none = (ips, failure enodev)
filled ips (some ips') = (ips', success)

-- `snsd_add_server_ip` on the addresses of the listener.
unfoldable pub add_ip : List ℕ → List (List ℕ) → List (List ℕ) × Status
unfolding has_ip fill_ip
add_ip ip ips = if has_ip ip ips then (ips, success) else filled ips (fill_ip ip ips)

-- `snsd_add_server_ip`: the first listener of the socket.
unfoldable pub snsd_add_server_ip : ℕ → List ℕ → List Listener → List Listener × Status
unfolding add_ip
snsd_add_server_ip fd ip [] = ([], failure enodev)
snsd_add_server_ip fd ip (l ∷ ls) =
    let (ls', result) = snsd_add_server_ip fd ip ls in
    if is_fd fd l.listening_fd
    then (record l { host_ip = (add_ip ip l.host_ip).0 } ∷ ls, (add_ip ip l.host_ip).1)
    else (l ∷ ls', result)

-- `snsd_remove_server_ip`; its result is always 0.
unfoldable pub snsd_remove_server_ip : ℕ → List ℕ → List Listener → List Listener
unfolding erase_ip
snsd_remove_server_ip fd ip [] = []
snsd_remove_server_ip fd ip (l ∷ ls) =
    let rest = snsd_remove_server_ip fd ip ls in
    if is_fd fd l.listening_fd then record l { host_ip = erase_ip ip l.host_ip } ∷ ls else l ∷ rest

-- `enum snsd_sock_event`, with what the sockets' calls of `snsd_add_server` come to.
pub data SockEvent : Type 0 where
  create : Status → Status → SockEvent
  close add_address remove_address butt : SockEvent

-- `snsd_update_server`.
unfoldable pub snsd_update_server :
    ℕ → PortRelatedInfo → SockEvent → List Listener → List Listener × Status
unfolding snsd_add_server snsd_remove_server snsd_add_server_ip snsd_remove_server_ip
snsd_update_server fd port (create options epoll) ls = snsd_add_server options epoll fd port ls
snsd_update_server fd port close ls = (snsd_remove_server fd ls, success)
snsd_update_server fd port add_address ls = snsd_add_server_ip fd port.ip ls
snsd_update_server fd port remove_address ls = (snsd_remove_server_ip fd port.ip ls, success)
snsd_update_server fd port butt ls = (ls, failure eminus1)

-- `snsd_server_remove_all`, on the table.
unfoldable pub snsd_server_remove_all : List Listener → List Listener
snsd_server_remove_all [] = []
snsd_server_remove_all (l ∷ ls) = record l { listening_fd = none } ∷ snsd_server_remove_all ls

-- `snsd_get_server_listener`.
unfoldable pub snsd_get_server_listener : ℕ → List Listener → Option Listener
snsd_get_server_listener fd [] = none
snsd_get_server_listener fd (l ∷ ls) =
    let rest = snsd_get_server_listener fd ls in if is_fd fd l.listening_fd then some l else rest

-- `snsd_listener_msg_inc`.
unfoldable pub snsd_listener_msg_inc : ℕ → List Listener → List Listener
snsd_listener_msg_inc fd [] = []
snsd_listener_msg_inc fd (l ∷ ls) =
    let rest = snsd_listener_msg_inc fd ls in
    if is_fd fd l.listening_fd then record l { rcv_cnt = u64 (l.rcv_cnt + 1) } ∷ ls else l ∷ rest
