-- ===== src/Net.antt =====
-- src/snsd.h and src/snsd_connect.h: addresses, link flags and the parameters of a connection.
-- An address is its 16 bytes; an IPv4 address stands in the first 4.
use nvme_snsd.Base.{
  ℕ, zero, suc, ◌/◌, ◌%◌, ◌≡◌, refl, Bool, true, false, ◌&&◌, ◌==◌, if◌then◌else◌, List, [], ◌∷◌,
  arith, ==_iff, take,
}

abbrev pub af_inet : ℕ
af_inet = 2

abbrev pub af_inet6 : ℕ
af_inet6 = 10

abbrev pub ipv4_addr_length : ℕ
ipv4_addr_length = 4

abbrev pub ipv6_addr_length : ℕ
ipv6_addr_length = 16

abbrev pub mac_length : ℕ
mac_length = 6

-- `memcmp(a, b, n) == 0`, on arrays of at least n bytes.
unfoldable pub mem_eq : ℕ → List ℕ → List ℕ → Bool
mem_eq zero a b = true
mem_eq (suc n) (x ∷ a) (y ∷ b) = (x == y) && mem_eq n a b
mem_eq (suc n) [] [] = true
mem_eq (suc n) [] (y ∷ b) = false
mem_eq (suc n) (x ∷ a) [] = false

-- `snsd_ip_match`.
unfoldable pub snsd_ip_match : ℕ → List ℕ → List ℕ → Bool
unfolding mem_eq
snsd_ip_match family ip1 ip2 =
    if (family == af_inet) && mem_eq ipv4_addr_length ip1 ip2
    then true
    else if (family == af_inet6) && mem_eq ipv6_addr_length ip1 ip2
    then true
    else false

pub mem_eq-take : (n : ℕ) (a b : List ℕ) → mem_eq n a b ≡ true → take n a ≡ take n b
unfolding mem_eq
mem_eq-take zero a b h = refl
mem_eq-take (suc n) (x ∷ a) (y ∷ b) h = ground (arith, mem_eq-take n a b, ==_iff x y)
mem_eq-take (suc n) [] [] h = refl
mem_eq-take (suc n) [] (y ∷ b) h = cc
mem_eq-take (suc n) (x ∷ a) [] h = cc

-- `IFF_RUNNING` is bit 6 of the flags.
unfoldable pub is_linkup : ℕ → Bool
is_linkup flags = flags / 64 % 2 == 1

-- The network mode: `SNSD_MODE_SW`, `SNSD_MODE_DC`.
pub data Mode : Type 0 where
  sw dc : Mode

-- `struct snsd_connect_param`.
pub record ConnectParam : Type 0 where
  pub protocol : ℕ
  pub portid : ℕ
  pub family : ℕ
  pub traddr : List ℕ
  pub host_traddr : List ℕ
  pub subsysnqn : List ℕ
  pub mode : Mode
  pub action_flag : ℕ

pub mem_eq_refl : (n : ℕ) (a : List ℕ) → mem_eq n a a ≡ true
unfolding mem_eq
mem_eq_refl zero a = refl
mem_eq_refl (suc n) [] = refl
mem_eq_refl (suc n) (x ∷ a) = ground (arith, mem_eq_refl n a)
