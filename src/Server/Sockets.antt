-- ===== src/Server/Sockets.antt =====
-- The listener table of src/snsd_server.c through its updates.
use nvme_snsd.Base.{
  ℕ, ◌≡◌, refl, ap, sym, ◌∙◌, true, ==_iff, if_cases, if_true, if_false, Bool-cases, inl, inr, List,
  [], ◌∷◌, Option, none, some, Status, success, failure,
}
use nvme_snsd.Net.{mem_eq, mem_eq_refl}
use nvme_snsd.Server.Listener.{
  Listener, PortRelatedInfo, zero_ip, is_fd, is_free, claim, snsd_update_server_sock,
  snsd_add_server, then_epoll, create, snsd_update_server, has_ip, kept, filled, fill_ip, add_ip,
  snsd_get_server_listener,
}

-- A new socket is found, under the port that it was created for.
sock-lookup :
    (fd : ℕ) (port : PortRelatedInfo) (ls : List Listener)
    → snsd_get_server_listener fd ls ≡ none
    → (snsd_update_server_sock fd port ls).1 ≡ success
    → (l : Listener) × (snsd_get_server_listener fd (snsd_update_server_sock fd port ls).0
        ≡ some (claim fd port l))
unfolding snsd_get_server_listener snsd_update_server_sock claim
sock-lookup fd port [] new done = cc
sock-lookup fd port (l ∷ ls) new done = elim (Bool-cases (is_free l.listening_fd)) [
  | inl free ↦ (
    l,
    ap (λ (r : List Listener × Status). snsd_get_server_listener fd r.0) (if_true _ _ free)
        ∙ if_true _ _ ((==_iff fd fd).1 refl),
  )
  | inr used ↦ elim (Bool-cases (is_fd fd l.listening_fd)) [
    | inl same ↦ let found = if_true (some l) (snsd_get_server_listener fd ls) same in cc
    | inr other ↦
        let new' = sym (if_false (some l) (snsd_get_server_listener fd ls) other) ∙ new in
        let kept' =
          if_false (claim fd port l ∷ ls, success)
            (l ∷ (snsd_update_server_sock fd port ls).0, (snsd_update_server_sock fd port ls).1)
            used in
        let rest =
          sock-lookup fd port ls new'
            (sym (ap (λ (r : List Listener × Status). r.1) kept') ∙ done) in
        (
          rest.0,
          ap (λ (r : List Listener × Status). snsd_get_server_listener fd r.0) kept'
              ∙ (if_false _ _ other ∙ rest.1),
        )
  ]
]

epoll_result :
    (epoll : Status) (r : List Listener × Status)
    → r.1 ≡ success
    → then_epoll epoll r ≡ (r.0, epoll)
epoll_result epoll (ls, failure e) h = cc
epoll_result epoll (ls, success) h = refl

-- Creating a socket that the table does not hold, while the options can be set and an entry is free:
-- its result is that of the epoll addition, and whether this succeeds or fails, the entry is taken.
pub create-lookup :
    (fd : ℕ) (port : PortRelatedInfo) (epoll : Status) (ls : List Listener)
    → snsd_get_server_listener fd ls ≡ none
    → (snsd_update_server_sock fd port ls).1 ≡ success
    → ((snsd_update_server fd port (create success epoll) ls).1 ≡ epoll)
      × ((l : Listener) × (snsd_get_server_listener fd
              (snsd_update_server fd port (create success epoll) ls).0
            ≡ some (claim fd port l)))
unfolding snsd_update_server snsd_add_server
create-lookup fd port epoll ls new done =
    let taken = sock-lookup fd port ls new done in
    let e = epoll_result epoll (snsd_update_server_sock fd port ls) done in
    (
      ap (λ (r : List Listener × Status). r.1) e,
      (taken.0, ap (λ (r : List Listener × Status). snsd_get_server_listener fd r.0) e ∙ taken.1),
    )

-- Where there is room, the address is there afterwards.
Filled : List ℕ → Option (List (List ℕ)) → Type 0
Filled ip none = Unit
Filled ip (some new) = has_ip ip new ≡ true

kept-Filled : (ip x : List ℕ) (o : Option (List (List ℕ))) → Filled ip o → Filled ip (kept x o)
unfolding has_ip Filled
kept-Filled ip x none h = tt
kept-Filled ip x (some xs) h = if_cases (λ b. b ≡ true) (mem_eq 16 x ip) (λ _. refl) λ _. h

fill_ip-Filled : (ip : List ℕ) (ips : List (List ℕ)) → Filled ip (fill_ip ip ips)
unfolding fill_ip has_ip Filled
fill_ip-Filled ip [] = tt
fill_ip-Filled ip (x ∷ xs) =
    if_cases (Filled ip) (mem_eq 16 x zero_ip)
      (λ _. if_true true (has_ip ip xs) (mem_eq_refl 16 ip))
      (λ _. kept-Filled ip x (fill_ip ip xs) (fill_ip-Filled ip xs))

settled :
    (ip : List ℕ) (ips new : List (List ℕ))
    → add_ip ip ips ≡ (new, success)
    → has_ip ip new ≡ true
    → (has_ip ip (add_ip ip ips).0 ≡ true)
      × (add_ip ip (add_ip ip ips).0 ≡ ((add_ip ip ips).0, success))
unfolding add_ip
settled ip ips new e there = (
  ap (λ (r : List (List ℕ) × Status). has_ip ip r.0) e ∙ there,
  ap (λ (r : List (List ℕ) × Status). add_ip ip r.0) e
      ∙ (if_true _ _ there ∙ sym (ap (λ (r : List (List ℕ) × Status). (r.0, success)) e)),
)

add_filled :
    (ip : List ℕ) (ips : List (List ℕ)) (o : Option (List (List ℕ)))
    → add_ip ip ips ≡ filled ips o
    → Filled ip o
    → (add_ip ip ips).1 ≡ success
    → (has_ip ip (add_ip ip ips).0 ≡ true)
      × (add_ip ip (add_ip ip ips).0 ≡ ((add_ip ip ips).0, success))
unfolding Filled
add_filled ip ips none e h done =
    let no = sym (ap (λ (r : List (List ℕ) × Status). r.1) e) ∙ done in cc
add_filled ip ips (some new) e h done = settled ip ips new e h

-- An address that has been added is there, and adding it once more changes nothing.
pub add_ip-twice :
    (ip : List ℕ) (ips : List (List ℕ))
    → (add_ip ip ips).1 ≡ success
    → (has_ip ip (add_ip ip ips).0 ≡ true)
      × (add_ip ip (add_ip ip ips).0 ≡ ((add_ip ip ips).0, success))
unfolding add_ip
add_ip-twice ip ips done = elim (Bool-cases (has_ip ip ips)) [
  | inl there ↦ settled ip ips ips (if_true _ _ there) there
  | inr absent ↦
      add_filled ip ips (fill_ip ip ips) (if_false _ _ absent) (fill_ip-Filled ip ips) done
]
