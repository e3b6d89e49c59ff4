-- ===== src/Config/Clean.antt =====
-- What `snsd_del_blank` makes of a buffer: a normal form, which it leaves as it is.
use nvme_snsd.Base.{
  ℕ, ◌≡◌, refl, ap, sym, ◌∙◌, Bool, true, false, not, ◌==◌, if◌then◌else◌, if_cases, if_true,
  if_false, List, [], ◌∷◌, rev_onto, rev_rev, subst, arith,
}
use nvme_snsd.Config.Text.{is_space}
use nvme_snsd.Config.Blank.{
  is_separator, is_plain, ends_item, snsd_ignore_blank_before_end, del_blank_step, del_blank_from,
  snsd_del_blank,
}

-- An item begins: `flag_begin` for the bytes so far, the last one first.
abbrev pub begins : List ℕ → Bool
begins [] = true
begins (c ∷ cs) = is_separator c

abbrev pub ends_in_space : List ℕ → Bool
ends_in_space [] = false
ends_in_space (c ∷ cs) = c == b' '

-- The byte `c` may follow: no space stands before a separator, and no blank where an item begins.
abbrev pub fits : ℕ → List ℕ → Bool
fits c cs =
    if is_separator c then not (ends_in_space cs) else if is_space c then not (begins cs) else true

-- Every byte fits to those before it; the last one stands first.
abbrev pub Clean : List ℕ → Type 0
Clean [] = Unit
Clean (c ∷ cs) = (fits c cs ≡ true) × Clean cs

ignore_blank-Clean :
    (cs : List ℕ)
    → Clean cs
    → Clean (snsd_ignore_blank_before_end cs)
      × (ends_in_space (snsd_ignore_blank_before_end cs) ≡ false)
unfolding snsd_ignore_blank_before_end
ignore_blank-Clean [] h = (tt, refl)
ignore_blank-Clean (c ∷ cs) h =
    if_cases (λ r. Clean r × (ends_in_space r ≡ false)) (c == b' ') (λ _. ignore_blank-Clean cs h.1)
      λ e. (h, e)

-- The invariant of the loop.
abbrev Good : List ℕ × Bool → Type 0
Good (tmp_buf, flag_begin) = Clean tmp_buf × (flag_begin ≡ begins tmp_buf)

-- The three kinds of bytes.
text_byte : (c : ℕ) → is_plain c ≡ true → (is_separator c ≡ false) × (is_space c ≡ false)
text_byte c h = ground arith

separator_byte : (c : ℕ) → ends_item c ≡ true → is_separator c ≡ true
separator_byte c h = ground arith

blank_byte :
    (c : ℕ)
    → is_plain c ≡ false
    → ends_item c ≡ false
    → (is_separator c ≡ false) × (is_space c ≡ true)
blank_byte c h k = ground arith

-- What may follow, by the kind of the byte.
text-fits : (c : ℕ) (cs : List ℕ) → is_plain c ≡ true → fits c cs ≡ true
text-fits c cs h = let k = text_byte c h in if_false _ _ k.0 ∙ if_false _ _ k.1

separator-fits :
    (c : ℕ) (cs : List ℕ) → ends_item c ≡ true → ends_in_space cs ≡ false → fits c cs ≡ true
separator-fits c cs h e = if_true _ _ (separator_byte c h) ∙ ap not e

blank-fits :
    (c : ℕ) (cs : List ℕ)
    → is_plain c ≡ false
    → ends_item c ≡ false
    → begins cs ≡ false
    → fits c cs ≡ true
blank-fits c cs h k e = let b = blank_byte c h k in if_false _ _ b.0 ∙ (if_true _ _ b.1 ∙ ap not e)

step-Good : (c : ℕ) (s : List ℕ × Bool) → Good s → Good (del_blank_step c s)
unfolding del_blank_step
step-Good c (tmp_buf, flag_begin) h =
    if_cases Good (is_plain c) (λ t. ((text-fits c tmp_buf t, h.0), sym (text_byte c t).0))
      λ t.
        if_cases Good (ends_item c)
          (λ e.
            let k = ignore_blank-Clean tmp_buf h.0 in
            (
              (separator-fits c (snsd_ignore_blank_before_end tmp_buf) e k.1, k.0),
              sym (separator_byte c e),
            ))
          λ e.
            if_cases Good flag_begin (λ f. (h.0, sym f ∙ h.1))
              (λ f. ((blank-fits c tmp_buf t e (sym h.1 ∙ f), h.0), sym (blank_byte c t e).0))

from-Good : (cs : List ℕ) (s : List ℕ × Bool) → Good s → Good (del_blank_from cs s)
unfolding del_blank_from
from-Good [] s h = h
from-Good (c ∷ cs) s h = from-Good cs (del_blank_step c s) (step-Good c s h)

-- In the buffer without its blanks, no space stands before an `=`, a `|` or the end of a line, and no
-- blank stands at the beginning or after one of those.
pub del_blank-Clean : (buf : List ℕ) → Clean (rev_onto (snsd_del_blank buf) [])
unfolding snsd_del_blank
del_blank-Clean buf =
    subst Clean (sym (rev_rev (del_blank_from buf ([], true)).0))
      (from-Good buf ([], true) (tt, refl)).0

Clean-tail : (xs acc : List ℕ) → Clean (rev_onto xs acc) → Clean acc
Clean-tail [] acc h = h
Clean-tail (x ∷ xs) acc h = (Clean-tail xs (x ∷ acc) h).1

ignore_blank_same : (cs : List ℕ) → ends_in_space cs ≡ false → snsd_ignore_blank_before_end cs ≡ cs
unfolding snsd_ignore_blank_before_end
ignore_blank_same [] h = refl
ignore_blank_same (c ∷ cs) h = ground arith

step_same :
    (c : ℕ) (acc : List ℕ)
    → Clean (c ∷ acc)
    → del_blank_step c (acc, begins acc) ≡ (c ∷ acc, begins (c ∷ acc))
unfolding del_blank_step
step_same c acc h = ground (arith, ignore_blank_same acc)

from_same :
    (xs acc : List ℕ)
    → Clean (rev_onto xs acc)
    → (del_blank_from xs (acc, begins acc)).0 ≡ rev_onto xs acc
unfolding del_blank_from
from_same [] acc h = refl
from_same (x ∷ xs) acc h =
    ap (λ s. (del_blank_from xs s).0) (step_same x acc (Clean-tail xs (x ∷ acc) h))
    ∙ from_same xs (x ∷ acc) h

-- Removing the blanks a second time changes nothing.
del_blank_idem : (buf : List ℕ) → snsd_del_blank (snsd_del_blank buf) ≡ snsd_del_blank buf
unfolding snsd_del_blank
del_blank_idem buf =
    ap (λ acc. rev_onto acc [])
      (from_same (snsd_del_blank buf) [] (del_blank-Clean buf)
        ∙ rev_rev (del_blank_from buf ([], true)).0)
