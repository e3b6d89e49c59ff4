-- ===== src/Frame/RoundTrip.antt =====
-- What is in a frame, as its reader finds it.
use nvme_snsd.Base.{
  ℕ, zero, suc, ◌+◌, ◌≡◌, refl, ap, ◌∙◌, ◌≤◌, ◌<◌, Bool, true, false, ◌==◌, leb, if_true, List, [],
  ◌∷◌, ◌++◌, Option, none, some, ◌>>=◌, length, take, drop, length-append, length-take,
  length-replicate, replicate, u8, u16, arith,
}
use nvme_snsd.Net.{af_inet, mac_length}
use nvme_snsd.Frame.Tlv.{
  PortInfo, cpu_to_be16, lldp_init_eth_header, lldp_init_chassis_id_tlv, lldp_init_time_to_live_tlv,
  lldp_init_end_tlv, lldp_smart_prefix, lldp_create_port_id_tlv, port_id_text, lldp_create_port_id,
  ip_addr, smart_value, lldp_create_smart_tlv, frame_of, frame_for, lldp_frame,
}
use nvme_snsd.Frame.Reader.{Tlv, cons_tlv, with_tlvs, read_tlvs, Frame, read_frame, read_tlvs-cons}

-- The arrays of a port have the sizes of their declarations: 15 bytes and a zero for the name, 16 for
-- the address, and 6 for the MAC address.
pub record IsPort (port : PortInfo) : Type 0 where
  pub name_size : length port.name < 16
  pub ip_size : length port.ip ≡ 16
  pub mac_size : length port.mac ≡ mac_length

take_all : (n : ℕ) (xs : List ℕ) → length xs ≤ n → take n xs ≡ xs
take_all zero [] h = refl
take_all zero (x ∷ xs) h = absurd (omega arith)
take_all (suc n) [] h = refl
take_all (suc n) (x ∷ xs) h = ap (λ ys. x ∷ ys) (take_all n xs (omega arith))

pub length-ip_addr : (inet : Bool) (ip : List ℕ) → length ip ≡ 16 → length (ip_addr inet ip) ≡ 16
length-ip_addr true ip h = omega (
  arith,
  h,
  length-append (take 4 ip) (replicate 12 0),
  length-take 4 ip,
  length-replicate {A = ℕ} 12 0,
)
length-ip_addr false ip h = omega (arith, h, length-take 16 ip)

length-smart_value :
    (port : PortInfo) (proto_id : List ℕ)
    → length port.ip ≡ 16
    → length (smart_value port proto_id) ≡ length proto_id + 31
length-smart_value port proto_id h =
    let inet = port.family == af_inet in
    omega (
      arith,
      length-ip_addr inet port.ip h,
      length-append (ip_addr inet port.ip) (
          port.protol_role
          ∷ u8 port.protocol
          ∷ (cpu_to_be16 0x101 ++ (cpu_to_be16 port.ulp_port ++ u8 (length proto_id) ∷ proto_id))),
    )

length-port_id :
    (name : List ℕ) (name_index : ℕ) → length (port_id_text name name_index) ≡ length name + 3
length-port_id name name_index = length-append name _

-- The TLVs of a frame.
abbrev pub tlvs_of : PortInfo → List ℕ → List Tlv
tlvs_of port nqn_name =
    record { kind = 1; value = 4 ∷ port.mac }
    ∷ record { kind = 2; value = 5 ∷ (lldp_smart_prefix ++ port_id_text port.name port.name_index) }
    ∷ record { kind = 3; value = 0 ∷ 120 ∷ [] }
    ∷ record { kind = 127; value = smart_value port nqn_name }
    ∷ []

-- The TLVs as they are written.
abbrev written : PortInfo → List ℕ → List ℕ → List ℕ
written port port_id nqn_name =
    lldp_init_chassis_id_tlv port.mac
    ++ (lldp_create_port_id_tlv port_id
        ++ (lldp_init_time_to_live_tlv 120
            ++ (lldp_create_smart_tlv port nqn_name ++ lldp_init_end_tlv)))

module _ (port : PortInfo) (ok : IsPort port) (n : ℕ) (rest : List ℕ) where
  read-chassis :
      read_tlvs (suc n) (lldp_init_chassis_id_tlv port.mac ++ rest)
      ≡ cons_tlv (record { kind = 1; value = 4 ∷ port.mac }) (read_tlvs n rest)
  unfolding lldp_init_chassis_id_tlv
  read-chassis =
      let whole = take_all mac_length port.mac (omega (arith, ok.mac_size)) in
      read_tlvs-cons n 1 7 (4 ∷ take mac_length port.mac) rest
        (omega (arith, length-take mac_length port.mac, ok.mac_size)) refl (omega arith)
        (omega arith) (omega (arith, length-take mac_length port.mac))
      ∙ ap (λ mac. cons_tlv (record { kind = 1; value = 4 ∷ mac }) (read_tlvs n rest)) whole

  read-port_id :
      (name : List ℕ)
      → length name < 19
      → read_tlvs (suc n) (lldp_create_port_id_tlv name ++ rest)
        ≡ cons_tlv (record { kind = 2; value = 5 ∷ (lldp_smart_prefix ++ name) }) (read_tlvs n rest)
  unfolding lldp_create_port_id_tlv
  read-port_id name h =
      read_tlvs-cons n 2 (length name + 5 + 1) (5 ∷ (lldp_smart_prefix ++ name)) rest (omega arith)
        refl (omega arith) (omega arith) (omega arith)

  read-time_to_live :
      read_tlvs (suc n) (lldp_init_time_to_live_tlv 120 ++ rest)
      ≡ cons_tlv (record { kind = 3; value = 0 ∷ 120 ∷ [] }) (read_tlvs n rest)
  unfolding lldp_init_time_to_live_tlv
  read-time_to_live =
      read_tlvs-cons n 3 2 (0 ∷ 120 ∷ []) rest (omega arith) refl (omega arith) (omega arith)
        (omega arith)

  read-smart :
      (nqn_name : List ℕ)
      → length nqn_name ≤ 480
      → read_tlvs (suc n) (lldp_create_smart_tlv port nqn_name ++ rest)
        ≡ cons_tlv (record { kind = 127; value = smart_value port nqn_name }) (read_tlvs n rest)
  unfolding lldp_create_smart_tlv
  read-smart nqn_name h =
      let m = u16 (length nqn_name) in
      let e : take m nqn_name ≡ nqn_name = take_all m nqn_name (omega arith) in
      let size = length-smart_value port (take m nqn_name) ok.ip_size in
      let same = ap length e in
      read_tlvs-cons n 127 (m + 31) (smart_value port (take m nqn_name)) rest
        (omega (arith, size, same)) refl (omega arith) (omega arith) (omega (arith, size, same))
      ∙ ap
          (λ name.
            cons_tlv (record { kind = 127; value = smart_value port name }) (read_tlvs n rest))
          e

-- A frame's header, with what its TLVs are read as.
abbrev framed : List ℕ → Option (List Tlv) → Option Frame
framed mac none = none
framed mac (some ts) = some (record {
  dest = 0x01 ∷ 0x80 ∷ 0xc2 ∷ 0 ∷ 0 ∷ 0x0e ∷ [];
  source = mac;
  ethertype = 0x88 ∷ 0xcc ∷ [];
  tlvs = ts;
})

framed-cases :
    (mac bs : List ℕ) (o : Option (List Tlv))
    → take 6 bs ≡ 0x01 ∷ 0x80 ∷ 0xc2 ∷ 0 ∷ 0 ∷ 0x0e ∷ []
    → take 6 (drop 6 bs) ≡ mac
    → take 2 (drop 12 bs) ≡ 0x88 ∷ 0xcc ∷ []
    → with_tlvs bs o ≡ framed mac o
framed-cases mac bs none h1 h2 h3 = refl
framed-cases mac bs (some ts) h1 h2 h3 = cc

read-header :
    (mac rest : List ℕ)
    → length mac ≡ 6
    → read_frame (lldp_init_eth_header mac ++ rest)
      ≡ framed mac (read_tlvs (length (lldp_init_eth_header mac ++ rest)) rest)
unfolding read_frame
read-header (a ∷ b ∷ c ∷ d ∷ e ∷ f ∷ []) rest h =
    framed-cases (a ∷ b ∷ c ∷ d ∷ e ∷ f ∷ [])
      (lldp_init_eth_header (a ∷ b ∷ c ∷ d ∷ e ∷ f ∷ []) ++ rest) _ refl refl refl
read-header [] rest h = absurd (omega (arith, h))
read-header (a ∷ []) rest h = absurd (omega (arith, h))
read-header (a ∷ b ∷ []) rest h = absurd (omega (arith, h))
read-header (a ∷ b ∷ c ∷ []) rest h = absurd (omega (arith, h))
read-header (a ∷ b ∷ c ∷ d ∷ []) rest h = absurd (omega (arith, h))
read-header (a ∷ b ∷ c ∷ d ∷ e ∷ []) rest h = absurd (omega (arith, h))
read-header (a ∷ b ∷ c ∷ d ∷ e ∷ f ∷ g ∷ more) rest h = absurd (omega (arith, h))

read-written :
    (port : PortInfo) (nqn_name : List ℕ) (n : ℕ)
    → IsPort port
    → length nqn_name ≤ 480
    → read_tlvs
        (suc (suc (suc (suc (suc n)))))
        (written port (port_id_text port.name port.name_index) nqn_name)
      ≡ some (tlvs_of port nqn_name)
unfolding read_tlvs
read-written port nqn_name n ok h =
    let id = port_id_text port.name port.name_index in
    let last = lldp_init_end_tlv in
    let smart = lldp_create_smart_tlv port nqn_name ++ last in
    let time = lldp_init_time_to_live_tlv 120 ++ smart in
    let first : Tlv = record { kind = 1; value = 4 ∷ port.mac } in
    let second : Tlv = record { kind = 2; value = 5 ∷ (lldp_smart_prefix ++ id) } in
    let third : Tlv = record { kind = 3; value = 0 ∷ 120 ∷ [] } in
    read-chassis port ok (suc (suc (suc (suc n)))) (lldp_create_port_id_tlv id ++ time)
    ∙ ap (cons_tlv first) (
        read-port_id port ok (suc (suc (suc n))) time id
          (omega (arith, length-port_id port.name port.name_index, ok.name_size))
        ∙ ap (cons_tlv second) (
            read-time_to_live port ok (suc (suc n)) smart
            ∙ ap (cons_tlv third) (read-smart port ok (suc n) last nqn_name h)))

frame-size :
    (port : PortInfo) (port_id nqn_name : List ℕ)
    → IsPort port
    → length nqn_name ≤ 480
    → length (frame_of port port_id nqn_name) ≡ 70 + length port_id + length nqn_name
unfolding lldp_init_chassis_id_tlv lldp_create_port_id_tlv lldp_init_time_to_live_tlv
    lldp_create_smart_tlv
frame-size port port_id nqn_name ok h =
    let mac = take mac_length port.mac in
    let m = u16 (length nqn_name) in
    let smart = smart_value port (take m nqn_name) in
    omega (
      arith,
      ok.mac_size,
      length-take mac_length port.mac,
      length-append (mac ++ cpu_to_be16 0x88cc) (written port port_id nqn_name),
      length-append mac (cpu_to_be16 0x88cc),
      length-append mac (
          lldp_create_port_id_tlv port_id
          ++ (lldp_init_time_to_live_tlv 120
              ++ (lldp_create_smart_tlv port nqn_name ++ lldp_init_end_tlv))),
      length-append port_id (
          lldp_init_time_to_live_tlv 120
          ++ (lldp_create_smart_tlv port nqn_name ++ lldp_init_end_tlv)),
      length-append smart lldp_init_end_tlv,
      length-smart_value port (take m nqn_name) ok.ip_size,
      length-take m nqn_name,
    )

-- For a port whose arrays have their declared sizes and a name of at most 480 bytes of the host, a
-- frame is built without a write outside a buffer; it goes to the address of the nearest bridge, comes
-- from the port, and a reader of IEEE 802.1AB finds in it the TLVs of the port, in order, and the end.
pub lldp_frame-read :
    (port : PortInfo) (nqn_name : List ℕ)
    → IsPort port
    → length nqn_name ≤ 480
    → (lldp_frame port nqn_name >>= read_frame)
      ≡ some (record {
        dest = 0x01 ∷ 0x80 ∷ 0xc2 ∷ 0 ∷ 0 ∷ 0x0e ∷ [];
        source = port.mac;
        ethertype = 0x88 ∷ 0xcc ∷ [];
        tlvs = tlvs_of port nqn_name;
      })
unfolding lldp_frame lldp_create_port_id
lldp_frame-read port nqn_name ok h =
    let port_id = port_id_text port.name port.name_index in
    let frame = frame_of port port_id nqn_name in
    let size = length-port_id port.name port.name_index in
    let e : leb (length port_id + 1) 19 ≡ true = ground (arith, size, ok.name_size) in
    let e1 : leb (length frame) 1514 ≡ true =
      ground (arith, size, ok.name_size, frame-size port port_id nqn_name ok h) in
    ap (λ id. frame_for port nqn_name id >>= read_frame) (if_true (some port_id) none e)
    ∙ (ap (λ f. f >>= read_frame) (if_true (some frame) none e1)
        ∙ (read-header port.mac (written port port_id nqn_name) ok.mac_size
            ∙ ap (framed port.mac) (read-written port nqn_name _ ok h)))
