-- ===== src/Discovery/Row.antt =====
-- A row of the kernel's table of VLANs is read back, src/snsd_mgt.c.
use mathlib.Core.List.{append-nil, append_assoc}
use nvme_snsd.Base.{
  ℕ, zero, suc, ◌≤◌, ◌<◌, ◌≡◌, refl, ap, ◌∙◌, Bool, true, false, not, ◌==◌, List, [], ◌∷◌, ◌++◌,
  length, length-append, All, All-append, All-map_pred, some, u16, arith,
}
use nvme_snsd.Config.Text.{is_space, is_newline, starts_with_self}
use nvme_snsd.Config.Options.{is_digit, digits_from}
use nvme_snsd.Discovery.Vlan.{
  is_blank, up_to_bar, all_blank, no_tail, snsd_match_vlan, find_str, find_start,
  snsd_find_vlan_start, at_bar, skip_to, span, if_any, snsd_fill_vlan, snsd_get_phy_ifname,
}

-- A byte that ends no field.
abbrev pub InField : ℕ → Type 0
InField c = (is_newline c ≡ false) × ((c == b'|') ≡ false)

up_to_bar-append :
    (n : ℕ) (tmp s rest : List ℕ)
    → All InField s
    → length s < n
    → up_to_bar n tmp (s ++ b'|' ∷ rest) ≡ some (tmp ++ s)
unfolding up_to_bar
up_to_bar-append zero tmp s rest h k = absurd (omega arith)
up_to_bar-append (suc n) tmp [] rest h k = rw append-nil
up_to_bar-append (suc n) tmp (c ∷ s) rest ((line, bar), h) k =
    rw (line, bar)
      (up_to_bar-append n (tmp ++ c ∷ []) s rest h (omega arith)
        ∙ ap some (append_assoc tmp (c ∷ []) s))

no_tail_blank : (pad : List ℕ) → all_blank pad ≡ true → no_tail pad ≡ []
unfolding no_tail
no_tail_blank [] h = refl
no_tail_blank (c ∷ pad) h = rw h refl

no_tail-append :
    (name pad : List ℕ)
    → All (λ c. is_blank c ≡ false) name
    → all_blank pad ≡ true
    → no_tail (name ++ pad) ≡ name
unfolding no_tail
no_tail-append [] pad h k = no_tail_blank pad k
no_tail-append (c ∷ name) pad (hc, hs) k = rw hc (ap (λ t. c ∷ t) (no_tail-append name pad hs k))

at_bar-append : (s rest : List ℕ) → All InField s → at_bar (s ++ b'|' ∷ rest) ≡ some rest
unfolding at_bar
at_bar-append [] rest h = refl
at_bar-append (c ∷ s) rest ((line, bar), h) = rw (line, bar) (at_bar-append s rest h)

span-append :
    (test : ℕ → Bool) (n : ℕ) (s : List ℕ) (x : ℕ) (rest : List ℕ)
    → All (λ c. test c ≡ true) s
    → length s ≤ n
    → test x ≡ false
    → span test n (s ++ x ∷ rest) ≡ (s, x ∷ rest)
unfolding span
span-append test zero [] x rest h k e = refl
span-append test zero (c ∷ s) x rest h k e = absurd (omega arith)
span-append test (suc n) [] x rest h k e = rw e refl
span-append test (suc n) (c ∷ s) x rest (hc, hs) k e =
    rw (hc, span-append test n s x rest hs (omega arith) e) refl

blank-InField : (pad : List ℕ) → all_blank pad ≡ true → All InField pad
blank-InField [] h = tt
blank-InField (c ∷ pad) h = ((ground arith, ground arith), blank-InField pad (ground arith))

-- The name of an interface, which is as the kernel lets it be.
pub record IsName (name : List ℕ) : Type 0 where
  pub plain : All (λ c. InField c × (is_blank c ≡ false)) name
  pub short : length name < 16

-- "%-15s| %d  | %s\n", the kernel's row, before the rest of the table.
abbrev pub behind_vlan : List ℕ → List ℕ → List ℕ
behind_vlan dev rest = b' ' ∷ b' ' ∷ b'|' ∷ b' ' ∷ (dev ++ b'\n' ∷ rest)

abbrev pub row : List ℕ → List ℕ → List ℕ → List ℕ → List ℕ → List ℕ
row name pad digits dev rest = (name ++ pad) ++ b'|' ∷ b' ' ∷ (digits ++ behind_vlan dev rest)

module _ (name pad : List ℕ) (named : IsName name) (blank : all_blank pad ≡ true)
    (narrow : length pad < 16) where
  name-InField : All InField (name ++ pad)
  name-InField =
      All-append InField name pad
        (All-map_pred (λ c. InField c × (is_blank c ≡ false)) InField (λ c p. p.0) name named.plain)
        (blank-InField pad blank)

  name-no_tail : no_tail (name ++ pad) ≡ name
  name-no_tail =
      no_tail-append name pad
        (All-map_pred (λ c. InField c × (is_blank c ≡ false)) (λ c. is_blank c ≡ false) (λ c p. p.1)
          name named.plain)
        blank

  match_row : (rest : List ℕ) → snsd_match_vlan ((name ++ pad) ++ b'|' ∷ rest) name ≡ true
  unfolding snsd_match_vlan
  match_row rest =
      rw
        (
          up_to_bar-append 127 [] (name ++ pad) rest name-InField
              (omega (arith, named.short, length-append name pad)),
          name-no_tail,
        )
        (starts_with_self name)

  -- The search ends at the first place where the name stands, if that is the beginning of its row.
  find_row :
      (c : ℕ) (cs rest : List ℕ)
      → find_str name (c ∷ cs) ≡ some ((name ++ pad) ++ b'|' ∷ rest)
      → snsd_find_vlan_start name (c ∷ cs) ≡ some ((name ++ pad) ++ b'|' ∷ rest)
  unfolding find_start
  find_row c cs rest h = rw (h, match_row rest) refl

skip_to-digit : (d : ℕ) (s : List ℕ) → is_digit d ≡ true → skip_to is_digit (b' ' ∷ d ∷ s) ≡ d ∷ s
unfolding skip_to
skip_to-digit d s h = rw h refl

vlan_text :
    (digits rest : List ℕ) (d x : ℕ)
    → All (λ b. is_digit b ≡ true) (d ∷ digits)
    → length digits < 127
    → is_digit x ≡ false
    → if_any (span is_digit 127 (skip_to is_digit (b' ' ∷ d ∷ (digits ++ x ∷ rest))))
      ≡ some (d ∷ digits, x ∷ rest)
vlan_text digits rest d x h short e =
    rw
      (
        skip_to-digit d (digits ++ x ∷ rest) h.0,
        span-append is_digit 127 (d ∷ digits) x rest h (omega arith) e,
      )
      refl

device_text :
    (dev rest : List ℕ) (x : ℕ)
    → All (λ b. not (is_space b) ≡ true) (x ∷ dev)
    → length dev < 15
    → snsd_get_phy_ifname (behind_vlan (x ∷ dev) rest) ≡ some (x ∷ dev)
unfolding snsd_get_phy_ifname
device_text dev rest x h fits =
    let solid : not (is_blank x) ≡ true = ground (arith, h.0) in
    let name = span-append (λ c. not (is_space c)) 16 (x ∷ dev) b'\n' rest h (omega arith) refl in
    rw (solid, name) refl

-- Where the first place of an interface's name in the kernel's table of VLANs is the beginning of its
-- row, the VLAN and the device of that row are found.
pub fill_vlan-row :
    (name pad digits dev rest : List ℕ) (d c : ℕ) (cs : List ℕ) (x : ℕ)
    → IsName name
    → all_blank pad ≡ true
    → length pad < 16
    → All (λ b. is_digit b ≡ true) (d ∷ digits)
    → length digits < 127
    → All (λ b. not (is_space b) ≡ true) (x ∷ dev)
    → length dev < 15
    → find_str name (c ∷ cs) ≡ some (row name pad (d ∷ digits) (x ∷ dev) rest)
    → (snsd_fill_vlan name (c ∷ cs)
        ≡ some (u16 (digits_from 0 (d ∷ digits)), behind_vlan (x ∷ dev) rest))
      × (snsd_get_phy_ifname (behind_vlan (x ∷ dev) rest) ≡ some (x ∷ dev))
unfolding snsd_fill_vlan snsd_get_phy_ifname
fill_vlan-row name pad digits dev rest d c cs x named blank narrow number short device fits first =
    let behind : List ℕ = b' ' ∷ ((d ∷ digits) ++ behind_vlan (x ∷ dev) rest) in
    let found = find_row name pad named blank narrow c cs behind first in
    let number_read =
      vlan_text digits (b' ' ∷ b'|' ∷ b' ' ∷ ((x ∷ dev) ++ b'\n' ∷ rest)) d b' ' number short
        refl in
    (
      rw
          (
            found,
            at_bar-append (name ++ pad) behind (name-InField name pad named blank narrow),
            number_read,
          )
          refl,
      device_text dev rest x device fits,
    )
