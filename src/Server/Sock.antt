-- ===== src/Server/Sock.antt =====
-- The sockets that src/snsd_mgt.c opens for the server of src/snsd_server.c.
use nvme_snsd.Base.{
  ℕ, ◌≡◌, refl, ap, subst, ◌∙◌, List, [], ◌∷◌, Option, none, some, ◌⊎◌, inl, inr, Status, success,
  failure, Errno, eperm,
}
use nvme_snsd.Server.Listener.{
  Listener, PortRelatedInfo, SockEvent, create, close, add_address, remove_address, claim,
  snsd_update_server_sock, snsd_update_server, snsd_get_server_listener,
}
use nvme_snsd.Server.Sockets.{create-lookup}

-- What the calls for a socket come to: opening it, binding it, setting its options, and its addition to epoll.
pub record SockCalls : Type 0 where
  pub opened : Option ℕ
  pub bound : Status
  pub options_set : Status
  pub epoll : Status

-- The table, the sockets that have been closed, and what is returned.
pub record GotSock : Type 0 where
  pub listeners : List Listener
  pub closed : List ℕ
  pub result : Errno ⊎ ℕ

abbrev pub updated : ℕ → List Listener × Status → GotSock
updated fd (ls, failure e) = record { listeners = ls; closed = fd ∷ []; result = inl e }
updated fd (ls, success) = record { listeners = ls; closed = []; result = inr fd }

-- After `snsd_bind_sock`.
abbrev pub after_bind : SockCalls → PortRelatedInfo → List Listener → ℕ → Status → GotSock
after_bind s port ls fd (failure e) = record { listeners = ls; closed = fd ∷ []; result = inl e }
after_bind s port ls fd success =
    updated fd (snsd_update_server fd port (create s.options_set s.epoll) ls)

abbrev pub after_socket : SockCalls → PortRelatedInfo → List Listener → Option ℕ → GotSock
after_socket s port ls none = record { listeners = ls; closed = []; result = inl eperm }
after_socket s port ls (some fd) = after_bind s port ls fd s.bound

-- `snsd_get_server_sock`.
unfoldable pub snsd_get_server_sock : SockCalls → PortRelatedInfo → List Listener → GotSock
unfolding snsd_update_server
snsd_get_server_sock s port ls = after_socket s port ls s.opened

-- `snsd_sock_close`: the table, and the socket that is closed.
unfoldable pub snsd_sock_close : ℕ → PortRelatedInfo → List Listener → List Listener × ℕ
unfolding snsd_update_server
snsd_sock_close fd port ls = ((snsd_update_server fd port close ls).0, fd)

-- `enum snsd_update_ip_event`.
pub data UpdateIp : Type 0 where
  add_ip_event remove_ip_event update_ip_butt : UpdateIp

abbrev pub event_of : UpdateIp → SockEvent
event_of add_ip_event = add_address
event_of remove_ip_event = remove_address
event_of update_ip_butt = remove_address

-- `snsd_update_sock_ip`.
unfoldable pub snsd_update_sock_ip :
    ℕ → PortRelatedInfo → UpdateIp → List Listener → List Listener × Status
unfolding snsd_update_server
snsd_update_sock_ip fd port update_type ls = snsd_update_server fd port (event_of update_type) ls

-- What becomes of a socket: it is returned, or closed.
abbrev pub Kept : ℕ → Status → GotSock → Type 0
Kept fd success g = (g.result ≡ inr fd) × (g.closed ≡ [])
Kept fd (failure e) g = (g.result ≡ inl e) × (g.closed ≡ fd ∷ [])

updated-Kept :
    (fd : ℕ) (s : Status) (r : List Listener × Status) → r.1 ≡ s → Kept fd s (updated fd r)
updated-Kept fd s (ls, failure e) h =
    subst (λ x. Kept fd x (updated fd (ls, failure e))) h (refl, refl)
updated-Kept fd s (ls, success) h = subst (λ x. Kept fd x (updated fd (ls, success))) h (refl, refl)

updated_listeners : (fd : ℕ) (r : List Listener × Status) → (updated fd r).listeners ≡ r.0
updated_listeners fd (ls, failure e) = refl
updated_listeners fd (ls, success) = refl

-- A socket that can be opened and bound, whose options can be set, that the table does not hold, and for
-- which there is room: it is returned where epoll takes it, and closed with epoll's error where it does
-- not. In both cases the table has it under the port, a closed one, too.
pub get_server_sock-listed :
    (s : SockCalls) (fd : ℕ) (port : PortRelatedInfo) (ls : List Listener)
    → s.opened ≡ some fd
    → s.bound ≡ success
    → s.options_set ≡ success
    → snsd_get_server_listener fd ls ≡ none
    → (snsd_update_server_sock fd port ls).1 ≡ success
    → Kept fd s.epoll (snsd_get_server_sock s port ls)
      × ((l : Listener) × (snsd_get_server_listener fd (snsd_get_server_sock s port ls).listeners
            ≡ some (claim fd port l)))
unfolding snsd_get_server_sock
get_server_sock-listed s fd port ls opened bound options new done =
    let made = create-lookup fd port s.epoll ls new done in
    let r = snsd_update_server fd port (create success s.epoll) ls in
    rw (opened, bound, options)
      (
        updated-Kept fd s.epoll r made.0,
        (made.1.0, ap (λ t. snsd_get_server_listener fd t) (updated_listeners fd r) ∙ made.1.1),
      )
