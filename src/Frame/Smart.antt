-- ===== src/Frame/Smart.antt =====
-- The fields of the organisation's own TLV of a frame of src/snsd_reg.c, read by their places.
use nvme_snsd.Base.{
  ◌≤◌, replicate, ◌⊎◌, inl, inr, zero, suc, [], refl, length-take, ℕ, ◌+◌, ◌*◌, ◌/◌, ◌%◌, ◌≡◌, ap,
  ◌∙◌, ◌<◌, true, ◌==◌, if◌then◌else◌, if_true, List, ◌∷◌, ◌++◌, Option, none, some, length, take,
  drop, u8, u16, arith, ◌&&◌, subst,
}
use nvme_snsd.Net.{af_inet}
use nvme_snsd.Frame.Tlv.{PortInfo, cpu_to_be16, ip_addr, addr_type, smart_value}
use nvme_snsd.Frame.Reader.{take-append, drop-append}
use nvme_snsd.Frame.RoundTrip.{IsPort, length-ip_addr}

pub record Smart : Type 0 where
  pub service : ℕ
  pub family : ℕ
  pub address : List ℕ
  pub role : ℕ
  pub protocol : ℕ
  pub version : ℕ
  pub ulp_port : ℕ
  pub name : List ℕ

-- An address by its type, 1 or 2, in its 16 bytes: AF_INET with 4 bytes, or AF_INET6 with all of them.
abbrev pub address_read : ℕ → List ℕ → Option (ℕ × List ℕ)
address_read kind bytes =
    if kind == 1
    then some (2, take 4 bytes)
    else if kind == 2
    then some (10, take 16 bytes)
    else none

abbrev pub with_address : Option (ℕ × List ℕ) → (ℕ → List ℕ → Smart) → Option Smart
with_address none f = none
with_address (some (family, address)) f = some (f family address)

-- What follows the 16 bytes of the address.
abbrev pub after_ip : ℕ → List ℕ → List ℕ → Option Smart
after_ip st bytes (role ∷ protocol ∷ v1 ∷ v2 ∷ p1 ∷ p2 ∷ n ∷ name) =
    if length name == n
    then with_address (address_read (st % 16) bytes) (λ family address. record {
      service = st / 16;
      family = family;
      address = address;
      role = role;
      protocol = protocol;
      version = v1 * 256 + v2;
      ulp_port = p1 * 256 + p2;
      name = name;
    })
    else none
after_ip st bytes _ = none

unfoldable pub read_smart : List ℕ → Option Smart
read_smart (o1 ∷ o2 ∷ o3 ∷ sub_type ∷ version ∷ st ∷ r1 ∷ r2 ∷ rest) =
    if (o1 == 0) && ((o2 == 0x18) && ((o3 == 0x82) && ((sub_type == 101) && (version == 1))))
    then after_ip st (take 16 rest) (drop 16 rest)
    else none
read_smart _ = none

-- How many bytes an address of a family has.
abbrev pub address_size : ℕ → ℕ
address_size family = if family == 2 then 4 else 16

-- What a port's TLV should say.
abbrev pub smart_of : PortInfo → List ℕ → Smart
smart_of port name = record {
  service = port.service_type / 16;
  family = port.family;
  address = take (address_size port.family) port.ip;
  role = port.protol_role;
  protocol = port.protocol;
  version = 257;
  ulp_port = port.ulp_port;
  name = name;
}

take_all {ℓ} : {A : Type ℓ} (n : ℕ) (xs : List A) → length xs ≤ n → take n xs ≡ xs
take_all zero [] h = refl
take_all zero (x ∷ xs) h = absurd (omega arith)
take_all (suc n) [] h = refl
take_all (suc n) (x ∷ xs) h = ap (λ ys. x ∷ ys) (take_all n xs (omega arith))

four_bytes : (ip : List ℕ) → length ip ≡ 16 → take 4 (take 4 ip ++ replicate 12 0) ≡ take 4 ip
four_bytes ip size =
    let four : length (take 4 ip) ≡ 4 = omega (arith, length-take 4 ip) in
    subst (λ n. take n (take 4 ip ++ replicate 12 0) ≡ take 4 ip) four
      (take-append (take 4 ip) (replicate 12 0))

-- The family and the address are read back.
address_read-port :
    (port : PortInfo)
    → length port.ip ≡ 16
    → (port.family ≡ 2) ⊎ (port.family ≡ 10)
    → let st = port.service_type / 16 * 16 + addr_type (port.family == af_inet) in
      (st / 16 ≡ port.service_type / 16)
      × (address_read (st % 16) (ip_addr (port.family == af_inet) port.ip)
          ≡ some (port.family, take (address_size port.family) port.ip))
address_read-port port size (inl e) = rw e (
    let one : (port.service_type / 16 * 16 + 1) % 16 ≡ 1 = omega arith in
    (
      omega arith,
      ap (λ n. address_read n (take 4 port.ip ++ replicate 12 0)) one
          ∙ ap (λ a. some (2, a)) (four_bytes port.ip size),
    ))
address_read-port port size (inr e) = rw e (
    let two : (port.service_type / 16 * 16 + 2) % 16 ≡ 2 = omega arith in
    (
      omega arith,
      ap (λ n. address_read n (take 16 port.ip)) two
          ∙ ap (λ a. some (10, a))
              (take_all 16 (take 16 port.ip) (omega (arith, length-take 16 port.ip))),
    ))

after_ip-smart :
    (port : PortInfo) (name : List ℕ)
    → length port.ip ≡ 16
    → (port.family ≡ 2) ⊎ (port.family ≡ 10)
    → port.protocol < 256
    → port.ulp_port < 65536
    → length name < 256
    → after_ip
        (port.service_type / 16 * 16 + addr_type (port.family == af_inet))
        (ip_addr (port.family == af_inet) port.ip)
        (port.protol_role
          ∷ u8 port.protocol
          ∷ (cpu_to_be16 0x101 ++ (cpu_to_be16 port.ulp_port ++ u8 (length name) ∷ name)))
      ≡ some (smart_of port name)
after_ip-smart port name size family h1 h2 h3 =
    let (service, address) = address_read-port port size family in
    let e1 : u8 port.protocol ≡ port.protocol = omega arith in
    let e2 : u16 port.ulp_port / 256 * 256 + u16 port.ulp_port % 256 ≡ port.ulp_port =
      omega arith in
    let e3 : (length name == u8 (length name)) ≡ true = ground arith in
    if_true _ _ e3 ∙ (λ i. with_address (address i) (λ family address. record {
      service = service i;
      family = family;
      address = address;
      role = port.protol_role;
      protocol = e1 i;
      version = 257;
      ulp_port = e2 i;
      name = name;
    }))

-- The service type, the family, the address, the role, the protocol, its version and port, and the host's
-- name are read back from the TLV of a port with an IPv4 or an IPv6 address of its declared size, for a
-- protocol of 8 bits, a port of 16 bits and a name of less than 256 bytes. The reader takes 4 bytes for
-- type 1, IPv4, and 16 bytes for type 2, IPv6.
pub smart_value-read :
    (port : PortInfo) (name : List ℕ)
    → IsPort port
    → (port.family ≡ 2) ⊎ (port.family ≡ 10)
    → port.protocol < 256
    → port.ulp_port < 65536
    → length name < 256
    → read_smart (smart_value port name) ≡ some (smart_of port name)
unfolding read_smart
smart_value-read port name ok family h1 h2 h3 =
    let inet = port.family == af_inet in
    let ip = ip_addr inet port.ip in
    let size = length-ip_addr inet port.ip ok.ip_size in
    let st = port.service_type / 16 * 16 + addr_type inet in
    let rest =
      port.protol_role
      ∷ u8 port.protocol
      ∷ (cpu_to_be16 0x101 ++ (cpu_to_be16 port.ulp_port ++ u8 (length name) ∷ name)) in
    ap (λ a. after_ip st a (drop 16 (ip ++ rest)))
      (subst (λ n. take n (ip ++ rest) ≡ ip) size (take-append ip rest))
    ∙ (ap (after_ip st ip) (subst (λ n. drop n (ip ++ rest) ≡ rest) size (drop-append ip rest))
        ∙ after_ip-smart port name ok.ip_size family h1 h2 h3)
