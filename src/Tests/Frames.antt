-- ===== src/Tests/Frames.antt =====
-- Runs of src/snsd_reg.c.
use nvme_snsd.Base.{
  inl, refl, ℕ, ◌≡◌, refl, arith, List, [], ◌∷◌, Option, none, some, ◌>>=◌, replicate, length,
}
use nvme_snsd.Config.Options.{codes}
use nvme_snsd.Frame.Tlv.{PortInfo, lldp_frame, smart_value}
use nvme_snsd.Frame.Reader.{read_frame}
use nvme_snsd.Frame.RoundTrip.{IsPort, tlvs_of, lldp_frame-read}
use nvme_snsd.Frame.Smart.{read_smart, smart_of, smart_value-read}

abbrev port : PortInfo
port = record {
  name = codes "eth0";
  name_index = 1;
  service_type = 16;
  family = 2;
  ip = 10 ∷ 0 ∷ 0 ∷ 2 ∷ replicate 12 0;
  mac = 2 ∷ 4 ∷ 6 ∷ 8 ∷ 10 ∷ 12 ∷ [];
  protocol = 1;
  protol_role = 2;
  ulp_port = 4420;
}

port-IsPort : IsPort port
port-IsPort = record { name_size = omega arith; ip_size = refl; mac_size = refl }

abbrev size_of : Option (List ℕ) → ℕ
size_of none = 0
size_of (some frame) = length frame

lldp_frame_size : size_of (lldp_frame port []) ≡ 77
unfolding lldp_frame
lldp_frame_size = refl

lldp_frame-read_example :
    (lldp_frame port (codes "nqn") >>= read_frame)
    ≡ some (record {
      dest = 0x01 ∷ 0x80 ∷ 0xc2 ∷ 0 ∷ 0 ∷ 0x0e ∷ [];
      source = 2 ∷ 4 ∷ 6 ∷ 8 ∷ 10 ∷ 12 ∷ [];
      ethertype = 0x88 ∷ 0xcc ∷ [];
      tlvs = tlvs_of port (codes "nqn");
    })
lldp_frame-read_example = lldp_frame-read port (codes "nqn") port-IsPort (omega arith)

smart_value-read_example :
    read_smart (smart_value port (codes "nqn")) ≡ some (smart_of port (codes "nqn"))
smart_value-read_example =
    smart_value-read port (codes "nqn") port-IsPort (inl refl) (omega arith) (omega arith)
      (omega arith)
