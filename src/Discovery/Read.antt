-- ===== src/Discovery/Read.antt =====
-- The whole text of a file is read, and all the interfaces, src/snsd_mgt.c.
use nvme_snsd.Base.{
  ℕ, zero, suc, ◌+◌, ◌-◌, ◌*◌, ◌≡◌, ◌≤◌, ◌<◌, refl, ap, ◌∙◌, Bool, true, false, ◌==◌, ltb,
  if◌then◌else◌, if_cases, List, [], ◌∷◌, take, length, length-take, Option, none, some, ◌>>=◌,
  Status, u32, c_string, arith,
}
use nvme_snsd.Discovery.Poll.{Port, IfReq, Kernel, snsd_get_net_info}
use nvme_snsd.Discovery.Files.{
  read_size, length_from, File, read_text, snsd_get_file_info, ifconf_from, snsd_get_ifconf,
  poll_interfaces, snsd_all_net_info,
}

length_from-whole :
    (fuel : ℕ) (error : ℕ → Bool) (i r n : ℕ)
    → ((j : ℕ) → error j ≡ false)
    → r < fuel
    → n + r < 4294967296
    → length_from fuel error i r n ≡ some (some (n + r))
unfolding length_from
length_from-whole zero error i r n calm enough small = absurd (omega arith)
length_from-whole (suc fuel) error i r n calm enough small =
    let Done = λ (v : Option (Option ℕ)). v ≡ some (some (n + r)) in
    if_cases Done (error i) (λ e. absurd (ground (arith, e, calm i)))
      λ _.
        if_cases Done (read_size r == 1023)
          (λ full.
            let size : read_size r ≡ 1023 = ground arith in
            let long : 1023 ≤ r = ground arith in
            let sum : u32 (n + read_size r) ≡ n + read_size r = ground arith in
            length_from-whole fuel error (suc i) (r - read_size r) (u32 (n + read_size r)) calm
              (ground arith) (ground arith)
            ∙ ap (λ m. some (some m)) (omega (arith, sum, size, long)))
          λ part. ap (λ m. some (some m)) (ground arith)

read_text-second :
    (f : File) (a b : List ℕ)
    → f.second ≡ some b
    → f.second_error ≡ false
    → f.memory ≡ true
    → length a < 2147483648
    → read_text f (some (length a)) ≡ (
        if length a == 0
        then some none
        else if ltb (length b) (length a)
        then none
        else some (some (c_string (take (length a) b))))
read_text-second f a b e2 calm2 memory small = rw (e2, calm2, memory) (ground arith)

-- A file that can be opened twice and read without an error, with memory for it, and less than 2^31 bytes
-- long at first: its text is what stands in it the second time, up to its first length, and it is a failure
-- if the file is shorter by then. Where the file is empty at first the text is not set, and this is no
-- failure.
pub get_file_info-read :
    (f : File) (a b : List ℕ)
    → f.first ≡ some a
    → f.second ≡ some b
    → ((j : ℕ) → f.error j ≡ false)
    → f.second_error ≡ false
    → f.memory ≡ true
    → length a < 2147483648
    → snsd_get_file_info f
      ≡ some (
          if length a == 0
          then some none
          else if ltb (length b) (length a)
          then none
          else some (some (c_string (take (length a) b))))
unfolding snsd_get_file_info
get_file_info-read f a b e1 e2 calm calm2 memory small =
    let zero_first : 0 + length a ≡ length a = omega arith in
    rw
      (
        e1,
        length_from-whole (suc (length a)) f.error 0 (length a) 0 calm (omega arith) (omega arith),
        zero_first,
      )
      (ap (λ t. some t) (read_text-second f a b e2 calm2 memory small))

take_all {ℓ} : {A : Type ℓ} (n : ℕ) (xs : List A) → length xs ≤ n → take n xs ≡ xs
take_all zero [] h = refl
take_all zero (x ∷ xs) h = absurd (omega arith)
take_all (suc n) [] h = refl
take_all (suc n) (x ∷ xs) h = ap (λ ys. x ∷ ys) (take_all n xs (omega arith))

ifconf_from-all :
    (fuel : ℕ) (ifs : List IfReq) (i n : ℕ)
    → length ifs < n + 128 * fuel
    → ifconf_from (suc fuel) (λ j m. some (take m ifs)) i n ≡ some (some ifs)
unfolding ifconf_from
ifconf_from-all zero ifs i n h =
    if_cases (λ r. r ≡ some (some ifs)) (length (take n ifs) == n)
      (λ e. absurd (ground (arith, length-take n ifs)))
      λ e. ap (λ l. some (some l)) (take_all n ifs (omega arith))
ifconf_from-all (suc fuel) ifs i n h =
    if_cases (λ r. r ≡ some (some ifs)) (length (take n ifs) == n)
      (λ e. ifconf_from-all fuel ifs (suc i) (n + 128) (omega arith))
      λ e. ap (λ l. some (some l)) (take_all n ifs (ground (arith, length-take n ifs)))

-- A poll goes over all the interfaces that the kernel has, however many: the loop that makes room for them
-- ends within as many rounds as there are 128 interfaces, and one more, and none is cut off.
pub all_net_info-all :
    (fuel : ℕ) (ifs : List IfReq) (k : Kernel) (count : ℕ) (ret : Status) (ports : List Port)
    → length ifs < 128 + 128 * fuel
    → snsd_all_net_info (suc fuel) true (λ i n. some (take n ifs)) k count ret ports
      ≡ snsd_get_net_info (record k { interfaces = ifs }) count ret ports
unfolding snsd_all_net_info snsd_get_ifconf
all_net_info-all fuel ifs k count ret ports h =
    ap (λ r. r >>= poll_interfaces k count ret ports) (ifconf_from-all fuel ifs 0 128 h)
