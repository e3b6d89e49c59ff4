-- ===== src/Frame/Tlv.antt =====
-- Building an LLDP frame: `lldp_send` of src/snsd_reg.c and what it calls. Every writer fills its
-- TLV from the end of the one before it, so a frame is the list of the bytes written. `none` is a
-- write outside a buffer.
use Prim.Native.Nat.{bit_or}
use nvme_snsd.Base.{
  ℕ, ◌+◌, ◌*◌, ◌/◌, ◌%◌, Bool, ◌==◌, leb, if◌then◌else◌, List, [], ◌∷◌, ◌++◌, Option, none, some,
  length, take, replicate, u8, u16, Status, success, failure, eio,
}
use nvme_snsd.Net.{af_inet, mac_length, ipv4_addr_length, ipv6_addr_length}

-- The fields of `struct snsd_port_info` that a frame is made of; `name` is the text.
pub record PortInfo : Type 0 where
  pub name : List ℕ
  pub name_index : ℕ
  pub service_type : ℕ
  pub family : ℕ
  pub ip : List ℕ
  pub mac : List ℕ
  pub protocol : ℕ
  pub protol_role : ℕ
  pub ulp_port : ℕ

-- `__cpu_to_be16`.
abbrev pub cpu_to_be16 : ℕ → List ℕ
cpu_to_be16 w = u16 w / 256 ∷ u16 w % 256 ∷ []

-- `type << LLDP_TLV_TYPE_SHIFT_LEFT_BIT | length`: the low 9 bits are those of the length.
unfoldable pub type_length : ℕ → ℕ → ℕ
type_length type length = bit_or type (length / 512) * 512 + length % 512

-- `lldp_init_eth_header`; `LLDP_PROTOCOL_TYPE` is 0x88cc.
abbrev pub lldp_init_eth_header : List ℕ → List ℕ
lldp_init_eth_header mac =
    0x01 ∷ 0x80 ∷ 0xc2 ∷ 0 ∷ 0 ∷ 0x0e ∷ (take mac_length mac ++ cpu_to_be16 0x88cc)

-- `lldp_init_chassis_id_tlv`.
unfoldable pub lldp_init_chassis_id_tlv : List ℕ → List ℕ
unfolding type_length
lldp_init_chassis_id_tlv mac =
    cpu_to_be16 (type_length 1 (mac_length + 1)) ++ 4 ∷ take mac_length mac

-- `lldp_init_time_to_live_tlv`.
unfoldable pub lldp_init_time_to_live_tlv : ℕ → List ℕ
unfolding type_length
lldp_init_time_to_live_tlv time = cpu_to_be16 (type_length 3 2) ++ cpu_to_be16 time

-- `lldp_init_end_tlv`.
abbrev pub lldp_init_end_tlv : List ℕ
lldp_init_end_tlv = 0 ∷ 0 ∷ []

-- `LLDP_SMART_PREFIX`.
abbrev pub lldp_smart_prefix : List ℕ
lldp_smart_prefix = b's' ∷ b'n' ∷ b's' ∷ b'd' ∷ b'_' ∷ []

-- `lldp_create_port_id_tlv`.
unfoldable pub lldp_create_port_id_tlv : List ℕ → List ℕ
unfolding type_length
lldp_create_port_id_tlv name =
    cpu_to_be16 (type_length 2 (length name + length lldp_smart_prefix + 1))
    ++ 5 ∷ (lldp_smart_prefix ++ name)

-- The text that `lldp_create_port_id` makes, `pos` bytes and a zero, in the 19 bytes of `port_id`.
abbrev pub port_id_text : List ℕ → ℕ → List ℕ
port_id_text name name_index =
    name ++ b'_' ∷ (b'0' + name_index / 10 % 10) ∷ (b'0' + name_index % 10) ∷ []

unfoldable pub lldp_create_port_id : List ℕ → ℕ → Option (List ℕ)
lldp_create_port_id name name_index =
    let port_id = port_id_text name name_index in
    if leb (length port_id + 1) 19 then some port_id else none

-- The address of a port in `ip_addr`, and the type that is added to its service type.
abbrev pub ip_addr : Bool → List ℕ → List ℕ
ip_addr inet ip =
    if inet then take ipv4_addr_length ip ++ replicate 12 0 else take ipv6_addr_length ip

abbrev pub addr_type : Bool → ℕ
addr_type inet = if inet then 1 else 2

-- `struct lldp_smart_tlv` without its first two bytes. `NVMEOF_VERSION` is 0x101. The service type is
-- the high half of its byte, and the type of the address the low half.
abbrev pub smart_value : PortInfo → List ℕ → List ℕ
smart_value port proto_id =
    let inet = port.family == af_inet in
    0
    ∷ 0x18
    ∷ 0x82
    ∷ 101
    ∷ 1
    ∷ (port.service_type / 16 * 16 + addr_type inet)
    ∷ 0
    ∷ 0
    ∷ (ip_addr inet port.ip
        ++ port.protol_role
          ∷ u8 port.protocol
          ∷ (cpu_to_be16 0x101 ++ (cpu_to_be16 port.ulp_port ++ u8 (length proto_id) ∷ proto_id)))

-- `lldp_create_smart_tlv`: `length - 2` counts the other 31 bytes of the structure. The name is cut to `nqn_length`, an `unsigned short`, and is empty for NULL.
unfoldable pub lldp_create_smart_tlv : PortInfo → List ℕ → List ℕ
unfolding type_length
lldp_create_smart_tlv port nqn_name =
    let nqn_length = u16 (length nqn_name) in
    cpu_to_be16 (type_length 127 (nqn_length + 31)) ++ smart_value port (take nqn_length nqn_name)

-- The frame of `lldp_send`, for a text of the port's name. `LLDP_OLD_TIME` is 120 seconds.
abbrev pub frame_of : PortInfo → List ℕ → List ℕ → List ℕ
frame_of port port_id nqn_name =
    lldp_init_eth_header port.mac
    ++ (lldp_init_chassis_id_tlv port.mac
        ++ (lldp_create_port_id_tlv port_id
            ++ (lldp_init_time_to_live_tlv 120
                ++ (lldp_create_smart_tlv port nqn_name ++ lldp_init_end_tlv))))

-- The buffer has `LLDP_MAX_LENGTH` bytes.
abbrev pub within : List ℕ → Option (List ℕ)
within frame = if leb (length frame) 1514 then some frame else none

abbrev pub frame_for : PortInfo → List ℕ → Option (List ℕ) → Option (List ℕ)
frame_for port nqn_name none = none
frame_for port nqn_name (some port_id) = within (frame_of port port_id nqn_name)

-- What `lldp_send` sends.
unfoldable pub lldp_frame : PortInfo → List ℕ → Option (List ℕ)
unfolding lldp_create_port_id lldp_create_smart_tlv lldp_init_time_to_live_tlv
    lldp_create_port_id_tlv lldp_init_chassis_id_tlv
lldp_frame port nqn_name = frame_for port nqn_name (lldp_create_port_id port.name port.name_index)

-- `lldp_send` where there is memory; `send` says whether the whole frame was taken.
abbrev sent_status : (List ℕ → Bool) → Option (List ℕ) → Option Status
sent_status send none = none
sent_status send (some frame) = some (if send frame then success else failure eio)

unfoldable pub lldp_send : (List ℕ → Bool) → PortInfo → List ℕ → Option Status
unfolding lldp_frame
lldp_send send port nqn_name = sent_status send (lldp_frame port nqn_name)
