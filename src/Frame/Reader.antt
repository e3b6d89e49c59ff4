-- ===== src/Frame/Reader.antt =====
-- Reading an LLDP frame as IEEE 802.1AB lays it out: TLVs with 7 bits of type and 9 bits of length,
-- to one of type 0 and length 0.
use Prim.Native.Nat.{bit_or}
use nvme_snsd.Base.{
  ℕ, zero, suc, ◌+◌, ◌*◌, ◌/◌, ◌%◌, ◌≡◌, refl, ap, ◌∙◌, ◌<◌, ◌&&◌, ◌==◌, ltb, if◌then◌else◌,
  if_false, List, [], ◌∷◌, ◌++◌, Option, none, some, length, take, drop, length-append, arith,
}
use nvme_snsd.Frame.Tlv.{cpu_to_be16, type_length}

pub record Tlv : Type 0 where
  pub kind : ℕ
  pub value : List ℕ

abbrev pub cons_tlv : Tlv → Option (List Tlv) → Option (List Tlv)
cons_tlv t none = none
cons_tlv t (some ts) = some (t ∷ ts)

-- After a header of a TLV, with its type and its length.
abbrev pub after_header : (List ℕ → Option (List Tlv)) → ℕ → ℕ → List ℕ → Option (List Tlv)
after_header again type len rest =
    if (type == 0) && (len == 0)
    then some []
    else if ltb (length rest) len
    then none
    else cons_tlv (record { kind = type; value = take len rest }) (again (drop len rest))

unfoldable pub read_tlvs : ℕ → List ℕ → Option (List Tlv)
read_tlvs zero bs = none
read_tlvs (suc n) [] = none
read_tlvs (suc n) (hi ∷ []) = none
read_tlvs (suc n) (hi ∷ lo ∷ rest) = after_header (read_tlvs n) (hi / 2) (hi % 2 * 256 + lo) rest

-- A frame: where it goes, where it comes from, its protocol and its TLVs.
pub record Frame : Type 0 where
  pub dest : List ℕ
  pub source : List ℕ
  pub ethertype : List ℕ
  pub tlvs : List Tlv

abbrev pub with_tlvs : List ℕ → Option (List Tlv) → Option Frame
with_tlvs bs none = none
with_tlvs bs (some ts) = some (record {
  dest = take 6 bs;
  source = take 6 (drop 6 bs);
  ethertype = take 2 (drop 12 bs);
  tlvs = ts;
})

unfoldable pub read_frame : List ℕ → Option Frame
unfolding read_tlvs
read_frame bs = with_tlvs bs (read_tlvs (length bs) (drop 14 bs))

pub take-append : {A : Type 0} (xs ys : List A) → take (length xs) (xs ++ ys) ≡ xs
take-append [] ys = refl
take-append (x ∷ xs) ys = ap (λ zs. x ∷ zs) (take-append xs ys)

pub drop-append : {A : Type 0} (xs ys : List A) → drop (length xs) (xs ++ ys) ≡ ys
drop-append [] ys = refl
drop-append (x ∷ xs) ys = drop-append xs ys

read_value :
    (again : List ℕ → Option (List Tlv)) (type : ℕ) (value rest : List ℕ)
    → 0 < type
    → after_header again type (length value) (value ++ rest)
      ≡ cons_tlv (record { kind = type; value = value }) (again rest)
read_value again type value rest h =
    if_false {b = (type == 0) && (length value == 0)} _ _ (ground arith)
    ∙ (if_false {b = ltb (length (value ++ rest)) (length value)} _ _
          (ground (arith, length-append value rest))
        ∙ (ap
              (λ v.
                cons_tlv (record { kind = type; value = v })
                  (again (drop (length value) (value ++ rest))))
              (take-append value rest)
            ∙ ap (λ v. cons_tlv (record { kind = type; value = value }) (again v))
                (drop-append value rest)))

type_length-small :
    (type len : ℕ)
    → type_length type 0 ≡ type * 512
    → len < 512
    → type_length type len ≡ type * 512 + len
unfolding type_length
type_length-small type len h short =
    let e : len / 512 ≡ 0 = omega arith in
    let e1 : len % 512 ≡ len = omega arith in
    ap (λ q. bit_or type q * 512 + len % 512) e ∙ omega (arith, h, e1)

-- A TLV as the frames have it is read as its type and its value.
pub read_tlvs-cons :
    (n type len : ℕ) (value rest : List ℕ)
    → len ≡ length value
    → type_length type 0 ≡ type * 512
    → 0 < type
    → type < 128
    → length value < 512
    → read_tlvs (suc n) ((cpu_to_be16 (type_length type len) ++ value) ++ rest)
      ≡ cons_tlv (record { kind = type; value = value }) (read_tlvs n rest)
unfolding read_tlvs type_length
read_tlvs-cons n type len value rest fits h pos small short =
    let word = type_length type len in
    let e : word ≡ type * 512 + len = type_length-small type len h (omega (arith, fits)) in
    let e1 : word % 65536 / 256 / 2 ≡ type = omega (arith, e) in
    let e2 : word % 65536 / 256 % 2 * 256 + word % 65536 % 256 ≡ length value =
      omega (arith, e, fits) in
    ap
      (λ t.
        after_header (read_tlvs n) t (word % 65536 / 256 % 2 * 256 + word % 65536 % 256)
          (value ++ rest))
      e1
    ∙ (ap (λ l. after_header (read_tlvs n) type l (value ++ rest)) e2
        ∙ read_value (read_tlvs n) type value rest pos)
