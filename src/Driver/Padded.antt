-- ===== src/Driver/Padded.antt =====
-- The texts of the discovery log, which are filled up with blanks, src/snsd_connect.h.
use mathlib.Core.List.{append-nil}
use nvme_snsd.Base.{
  ℕ, zero, suc, ◌≡◌, ◌≢◌, refl, ap, ◌∙◌, true, false, List, [], ◌∷◌, ◌++◌, replicate, All, c_string,
  arith,
}
use nvme_snsd.Driver.Profile.{c_string-append}
use nvme_snsd.Driver.Create.{all_zero, snsd_strip_tail_space}

all_zero-replicate : (n : ℕ) → all_zero (replicate n 0) ≡ true
all_zero-replicate zero = refl
all_zero-replicate (suc n) = all_zero-replicate n

strip-blanks : (n : ℕ) → snsd_strip_tail_space (replicate n b' ') ≡ replicate n 0
unfolding snsd_strip_tail_space
strip-blanks zero = refl
strip-blanks (suc n) = ground (arith, strip-blanks n, all_zero-replicate n)

-- A text as a target writes it: without a zero, and with no blank at its end.
abbrev pub IsText : List ℕ → Type 0
IsText [] = Unit
IsText (c ∷ []) = (c ≢ 0) × (c ≢ b' ')
IsText (c ∷ d ∷ s) = (c ≢ 0) × IsText (d ∷ s)

IsText-ne : (c : ℕ) (s : List ℕ) → IsText (c ∷ s) → All (λ x. x ≢ 0) (c ∷ s)
IsText-ne c [] h = (h.0, tt)
IsText-ne c (d ∷ s) h = (h.0, IsText-ne d s h.1)

all_zero_text : (c : ℕ) (s behind : List ℕ) → IsText (c ∷ s) → all_zero ((c ∷ s) ++ behind) ≡ false
all_zero_text c s behind h = ground (arith, (IsText-ne c s h).0)

strip_keep :
    (c : ℕ) (cs r : List ℕ)
    → snsd_strip_tail_space cs ≡ r
    → all_zero r ≡ false
    → snsd_strip_tail_space (c ∷ cs) ≡ c ∷ r
unfolding snsd_strip_tail_space
strip_keep c cs r e z = rw e (ground (arith, z))

strip-text :
    (c : ℕ) (s : List ℕ) (n : ℕ)
    → IsText (c ∷ s)
    → snsd_strip_tail_space ((c ∷ s) ++ replicate n b' ') ≡ (c ∷ s) ++ replicate n 0
unfolding snsd_strip_tail_space
strip-text c [] n (ne, last) = ground (arith, strip-blanks n)
strip-text c (d ∷ s) n (ne, text) =
    strip_keep c ((d ∷ s) ++ replicate n b' ') ((d ∷ s) ++ replicate n 0) (strip-text d s n text)
      (all_zero_text d s (replicate n 0) text)

-- The text of a field of the discovery log is read back from the blanks with which it is filled up.
strip_tail_space-text :
    (s : List ℕ) (n : ℕ)
    → IsText s
    → c_string (snsd_strip_tail_space (s ++ replicate (suc n) b' ')) ≡ s
strip_tail_space-text [] n text = ap c_string (strip-blanks (suc n))
strip_tail_space-text (c ∷ s) n text =
    ap c_string (strip-text c s (suc n) text)
    ∙ c_string-append (c ∷ s) (replicate (suc n) 0) (IsText-ne c s text)
    ∙ append-nil (c ∷ s)
