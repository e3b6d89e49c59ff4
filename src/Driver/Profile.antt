-- ===== src/Driver/Profile.antt =====
-- A controller's files as the kernel writes them are read back, src/snsd_conn_nvme.c.
use mathlib.Core.List.{append-nil, append_assoc}
use nvme_snsd.Base.{
  ℕ, zero, suc, ◌-◌, ◌≤◌, ◌<◌, ◌≡◌, ◌≢◌, refl, ◌∙◌, true, false, List, [], ◌∷◌, ◌++◌, take, length,
  length-append, All, All-append, All-map_pred, Option, some, c_string, arith, ap,
}
use nvme_snsd.Config.Options.{codes}
use nvme_snsd.Driver.Address.{
  without_newline, attr_text, snsd_nvme_ctrl_read_attr, is_sep, pieces_from, behind, Address,
  at_pieces, snsd_nvme_ctrl_parse_address, profile_of, snsd_nvme_ctrl_profile,
}

-- A byte of an address: no zero and no separator.
abbrev pub IsPlain : ℕ → Type 0
IsPlain c = (c ≢ 0) × (is_sep c ≡ false)

pub take-length {ℓ} : {A : Type ℓ} (n : ℕ) (xs : List A) → length xs ≤ n → take n xs ≡ xs
take-length zero [] h = refl
take-length zero (x ∷ xs) h = absurd (omega arith)
take-length (suc n) [] h = refl
take-length (suc n) (x ∷ xs) h = ap (λ ys. x ∷ ys) (take-length n xs (omega arith))

pub c_string-append :
    (s rest : List ℕ) → All (λ c. c ≢ 0) s → c_string (s ++ rest) ≡ s ++ c_string rest
c_string-append [] rest h = refl
c_string-append (c ∷ s) rest (hc, hs) = ground (arith, c_string-append s rest hs)

without_newline-append : (s : List ℕ) → without_newline (s ++ b'\n' ∷ []) ≡ s
without_newline-append [] = refl
without_newline-append (c ∷ []) = refl
without_newline-append (c ∷ d ∷ s) = ap (λ t. c ∷ t) (without_newline-append (d ∷ s))

attr_text-append : (s : List ℕ) → attr_text (s ++ b'\n' ∷ []) ≡ some (some s)
attr_text-append [] = refl
attr_text-append (c ∷ s) = ap (λ t. some (some t)) (without_newline-append (c ∷ s))

-- A line is read back.
read_attr_line :
    (n : ℕ) (s : List ℕ)
    → All (λ c. c ≢ 0) s
    → length s < n
    → snsd_nvme_ctrl_read_attr (suc n) (some (s ++ b'\n' ∷ [])) ≡ some (some s)
unfolding snsd_nvme_ctrl_read_attr
read_attr_line n s h k =
    let short : suc n - 1 ≡ n = omega arith in
    rw
      (
        short,
        take-length n (s ++ b'\n' ∷ []) (omega (arith, length-append s (b'\n' ∷ []))),
        c_string-append s (b'\n' ∷ []) h,
      )
      (attr_text-append s)

pub pieces_from-append :
    (piece s : List ℕ) (c : ℕ) (rest : List ℕ)
    → All IsPlain s
    → is_sep c ≡ true
    → pieces_from piece (s ++ c ∷ rest) ≡ (piece ++ s) ∷ pieces_from [] rest
unfolding pieces_from
pieces_from-append piece [] c rest h sep = ground (arith, append-nil piece)
pieces_from-append piece (d ∷ s) c rest ((hd, plain), hs) sep =
    ground
      (arith, pieces_from-append (piece ++ d ∷ []) s c rest hs sep, append_assoc piece (d ∷ []) s)

pieces_from_last : (piece s : List ℕ) → All IsPlain s → pieces_from piece s ≡ (piece ++ s) ∷ []
unfolding pieces_from
pieces_from_last piece [] h = ground (arith, append-nil piece)
pieces_from_last piece (d ∷ s) ((hd, plain), hs) =
    ground (arith, pieces_from_last (piece ++ d ∷ []) s hs, append_assoc piece (d ∷ []) s)

-- A controller as the kernel has it: its addresses have room in the arrays.
pub record Known (a : Address) : Type 0 where
  pub traddr : All IsPlain a.traddr
  pub trsvcid : All IsPlain a.trsvcid
  pub host_traddr : All IsPlain a.host_traddr
  pub traddr_short : length a.traddr < 64
  pub trsvcid_short : length a.trsvcid < 8
  pub host_traddr_short : length a.host_traddr < 64

-- "traddr=%s,trsvcid=%s,host_traddr=%s", the kernel's text of the addresses.
abbrev pub address_line : Address → List ℕ
address_line a =
    (codes "traddr=" ++ a.traddr)
    ++ b',' ∷ ((codes "trsvcid=" ++ a.trsvcid) ++ b',' ∷ (codes "host_traddr=" ++ a.host_traddr))

IsPlain-codes :
    All IsPlain (codes "traddr=")
    × All IsPlain (codes "trsvcid=")
    × All IsPlain (codes "host_traddr=")
IsPlain-codes = ground arith

Known-IsPlain :
    (a : Address)
    → Known a
    → All IsPlain (codes "traddr=" ++ a.traddr)
      × All IsPlain (codes "trsvcid=" ++ a.trsvcid)
      × All IsPlain (codes "host_traddr=" ++ a.host_traddr)
Known-IsPlain a k =
    let (target, service, host) = IsPlain-codes in
    (
      All-append IsPlain (codes "traddr=") a.traddr target k.traddr,
      All-append IsPlain (codes "trsvcid=") a.trsvcid service k.trsvcid,
      All-append IsPlain (codes "host_traddr=") a.host_traddr host k.host_traddr,
    )

address-pieces :
    (a : Address)
    → Known a
    → pieces_from [] (address_line a)
      ≡ (codes "traddr=" ++ a.traddr)
        ∷ (codes "trsvcid=" ++ a.trsvcid)
        ∷ (codes "host_traddr=" ++ a.host_traddr)
        ∷ []
address-pieces a k =
    let (p, q, r) = Known-IsPlain a k in
    pieces_from-append [] (codes "traddr=" ++ a.traddr) b','
      ((codes "trsvcid=" ++ a.trsvcid) ++ b',' ∷ (codes "host_traddr=" ++ a.host_traddr)) p refl
    ∙ ap (λ ps. (codes "traddr=" ++ a.traddr) ∷ ps)
        (pieces_from-append [] (codes "trsvcid=" ++ a.trsvcid) b','
            (codes "host_traddr=" ++ a.host_traddr) q refl
          ∙ ap (λ ps. (codes "trsvcid=" ++ a.trsvcid) ∷ ps)
              (pieces_from_last [] (codes "host_traddr=" ++ a.host_traddr) r))

at_pieces_lem :
    (a : Address)
    → Known a
    → at_pieces
        ((codes "traddr=" ++ a.traddr)
          ∷ (codes "trsvcid=" ++ a.trsvcid)
          ∷ (codes "host_traddr=" ++ a.host_traddr)
          ∷ [])
        (record { traddr = []; host_traddr = []; trsvcid = [] })
      ≡ some a
unfolding at_pieces behind
at_pieces_lem a k = ground arith

parse_address_line :
    (a : Address) → Known a → snsd_nvme_ctrl_parse_address (address_line a) ≡ some a
unfolding snsd_nvme_ctrl_parse_address
parse_address_line a k = rw (address-pieces a k) (at_pieces_lem a k)

abbrev NonZero : List ℕ → Type 0
NonZero = All (λ c. c ≢ 0)

Plain-NonZero : (s : List ℕ) → All IsPlain s → NonZero s
Plain-NonZero s h = All-map_pred IsPlain (λ c. c ≢ 0) (λ c p. p.0) s h

comma-NonZero : (s rest : List ℕ) → NonZero s → NonZero rest → NonZero (s ++ b',' ∷ rest)
comma-NonZero s rest h k = All-append (λ c. c ≢ 0) s (b',' ∷ rest) h (ground arith, k)

address_line-NonZero : (a : Address) → Known a → NonZero (address_line a)
address_line-NonZero a k =
    let (p, q, r) = Known-IsPlain a k in
    let target : List ℕ = codes "traddr=" ++ a.traddr in
    let service : List ℕ = codes "trsvcid=" ++ a.trsvcid in
    let host : List ℕ = codes "host_traddr=" ++ a.host_traddr in
    comma-NonZero target (service ++ b',' ∷ host) (Plain-NonZero target p)
      (comma-NonZero service host (Plain-NonZero service q) (Plain-NonZero host r))

length-address_line : (a : Address) → Known a → length (address_line a) < 1023
length-address_line a k = omega (
  arith,
  length-append a.traddr
      (b',' ∷ ((codes "trsvcid=" ++ a.trsvcid) ++ b',' ∷ (codes "host_traddr=" ++ a.host_traddr))),
  length-append a.trsvcid (b',' ∷ (codes "host_traddr=" ++ a.host_traddr)),
)

-- A line of the kernel's files.
abbrev pub line : List ℕ → List ℕ
line s = s ++ b'\n' ∷ []

profile_lines :
    (attrs : List ℕ → Option (List ℕ)) (subsysnqn transport address : List ℕ) (a : Address)
    → attrs (codes "subsysnqn") ≡ some (line subsysnqn)
    → attrs (codes "transport") ≡ some (line transport)
    → attrs (codes "address") ≡ some (line address)
    → NonZero subsysnqn
    → length subsysnqn < 255
    → NonZero transport
    → length transport < 7
    → NonZero address
    → length address < 1023
    → snsd_nvme_ctrl_parse_address address ≡ some a
    → snsd_nvme_ctrl_profile attrs ≡ some (some (profile_of subsysnqn transport a))
unfolding snsd_nvme_ctrl_profile
profile_lines attrs subsysnqn transport address a p q r n_nz n_len t_nz t_len a_nz a_len parsed =
    rw (p, read_attr_line 255 subsysnqn n_nz n_len)
      (rw (q, read_attr_line 7 transport t_nz t_len)
        (rw (r, read_attr_line 1023 address a_nz a_len) (rw parsed refl)))

-- The profile of a controller is read back from the files in which the kernel writes its name, its
-- transport and its addresses, where these have no separator and have room in the arrays.
pub profile-read :
    (attrs : List ℕ → Option (List ℕ)) (subsysnqn transport : List ℕ) (a : Address)
    → attrs (codes "subsysnqn") ≡ some (line subsysnqn)
    → attrs (codes "transport") ≡ some (line transport)
    → attrs (codes "address") ≡ some (line (address_line a))
    → All (λ c. c ≢ 0) subsysnqn
    → length subsysnqn < 255
    → All (λ c. c ≢ 0) transport
    → length transport < 7
    → Known a
    → snsd_nvme_ctrl_profile attrs ≡ some (some (profile_of subsysnqn transport a))
profile-read attrs subsysnqn transport a p q r n_nz n_len t_nz t_len k =
    profile_lines attrs subsysnqn transport (address_line a) a p q r n_nz n_len t_nz t_len
      (address_line-NonZero a k) (length-address_line a k) (parse_address_line a k)
