-- ===== src/Config/Sections.antt =====
-- A configuration file is a dictionary of sections: loading a section of a file finds the first
-- section of that name.
use nvme_snsd.Base.{
  ℕ, zero, suc, ◌≡◌, refl, ap, sym, ◌∙◌, ◌≤◌, ◌<◌, false, ◌==◌, leb, if◌then◌else◌, if_cases,
  if_true, if_false, List, [], ◌∷◌, ◌++◌, length, length-append, Option, none, some, arith, All,
  c_string,
}
use nvme_snsd.Config.Text.{str_eq}
use nvme_snsd.Config.File.{
  Read, read, cons_read, section_of, snsd_read_section_name, snsd_read_section, after_name,
  snsd_find_section, snsd_section_load, snsd_max_section_name_len, snsd_cfg_file_max_size,
}

-- A section of a file: its name and what stands between it and the next one.
pub record Section : Type 0 where
  pub name : List ℕ
  pub body : List ℕ

-- The text of a list of sections.
abbrev pub render : List Section → List ℕ
render [] = []
render (s ∷ ss) = b'[' ∷ (s.name ++ (b']' ∷ (s.body ++ render ss)))

-- The first section of a name.
abbrev pub lookup : List ℕ → List Section → Option (List ℕ)
lookup name [] = none
lookup name (s ∷ ss) = let rest = lookup name ss in if str_eq s.name name then some s.body else rest

abbrev pub Avoids : ℕ → List ℕ → Type 0
Avoids b = All (λ c. (c == b) ≡ false)

-- A name has at most 31 bytes and no `]` or zero, and a body has no `[`.
pub record IsSection (s : Section) : Type 0 where
  pub short : length s.name < snsd_max_section_name_len
  pub no_bracket : Avoids b']' s.name
  pub no_zero : Avoids 0 s.name
  pub no_open : Avoids b'[' s.body

c_string-Avoids : (name : List ℕ) → Avoids 0 name → c_string name ≡ name
c_string-Avoids [] h = refl
c_string-Avoids (c ∷ cs) h = if_false _ _ h.0 ∙ ap (λ s. c ∷ s) (c_string-Avoids cs h.1)

read_name-append :
    (n : ℕ) (name rest : List ℕ)
    → length name < n
    → Avoids b']' name
    → snsd_read_section_name n (name ++ (b']' ∷ rest)) ≡ read name rest
unfolding snsd_read_section_name
read_name-append zero name rest short h = absurd (omega arith)
read_name-append (suc n) [] rest short h = refl
read_name-append (suc n) (c ∷ cs) rest short h =
    if_false _ _ h.0 ∙ ap (cons_read c) (read_name-append n cs rest (omega arith) h.1)

read_section-append :
    (n : ℕ) (body : List ℕ) (ss : List Section)
    → length body < n
    → Avoids b'[' body
    → (rest : List ℕ) × (snsd_read_section n (body ++ render ss) ≡ read body rest)
unfolding snsd_read_section
read_section-append zero body ss short h = absurd (omega arith)
read_section-append (suc n) [] [] short h = ([], refl)
read_section-append (suc n) [] (s ∷ ss) short h = (s.name ++ (b']' ∷ (s.body ++ render ss)), refl)
read_section-append (suc n) (c ∷ cs) ss short h =
    let r = read_section-append n cs ss (omega arith) h.1 in
    (r.0, if_false _ _ h.0 ∙ ap (cons_read c) r.1)

-- After a name that has been read: the section if it is the one, and else the search in the rest.
after_name-lookup :
    (again : List ℕ → Read) (size : ℕ) (name : List ℕ) (s : Section) (ss : List Section)
    → IsSection s
    → length s.body < size
    → section_of (again (s.body ++ render ss)) ≡ lookup name ss
    → section_of (after_name again size name (read s.name (s.body ++ render ss)))
      ≡ lookup name (s ∷ ss)
unfolding after_name
after_name-lookup again size name s ss ok fits h =
    ap
      (λ n. section_of (
        if str_eq n name
        then snsd_read_section size (s.body ++ render ss)
        else again (s.body ++ render ss)))
      (c_string-Avoids s.name ok.no_zero)
    ∙ if_cases (λ b. section_of b ≡ lookup name (s ∷ ss)) (str_eq s.name name)
        (λ e.
          ap section_of (read_section-append size s.body ss fits ok.no_open).1
          ∙ sym (if_true (some s.body) (lookup name ss) e))
        (λ e. h ∙ sym (if_false (some s.body) (lookup name ss) e))

find-lookup :
    (fuel size : ℕ) (name pre : List ℕ) (ss : List Section)
    → Avoids b'[' pre
    → All IsSection ss
    → length (pre ++ render ss) < fuel
    → length (pre ++ render ss) ≤ size
    → section_of (snsd_find_section fuel size name (pre ++ render ss)) ≡ lookup name ss
unfolding snsd_find_section
find-lookup zero size name pre ss h ok enough fits = absurd (omega arith)
find-lookup (suc fuel) size name (c ∷ cs) ss h ok enough fits =
    ap section_of (if_false _ _ h.0)
    ∙ find-lookup fuel size name cs ss h.1 ok (omega arith) (omega arith)
find-lookup (suc fuel) size name [] [] h ok enough fits = refl
find-lookup (suc fuel) size name [] (s ∷ ss) h ok enough fits =
    let e1 = length-append s.name (b']' ∷ (s.body ++ render ss)) in
    let e2 = length-append s.body (render ss) in
    ap (λ r. section_of (after_name (snsd_find_section fuel size name) size name r))
      (read_name-append 32 s.name (s.body ++ render ss) ok.0.short ok.0.no_bracket)
    ∙ after_name-lookup (snsd_find_section fuel size name) size name s ss ok.0
        (omega (arith, e1, e2))
        (find-lookup fuel size name s.body ss ok.0.no_open ok.1 (omega (arith, e1, e2))
          (omega (arith, e1, e2)))

-- Loading a section from a file of less than 8192 bytes that has any text without a `[` and then
-- sections, whose names have at most 31 bytes and no `]` or zero, and whose bodies have no `[`, gives
-- the body of the first section of that name, and nothing where there is none.
pub section_load-render :
    (pre name : List ℕ) (ss : List Section)
    → Avoids b'[' pre
    → All IsSection ss
    → length (pre ++ render ss) < snsd_cfg_file_max_size
    → snsd_section_load (pre ++ render ss) name ≡ lookup name ss
unfolding snsd_section_load
section_load-render pre name ss h ok small =
    let file = pre ++ render ss in
    let found =
      find-lookup (suc (length file)) (length file) name pre ss h ok (omega arith) (omega arith) in
    if_cases (λ o. o ≡ lookup name ss) (leb snsd_cfg_file_max_size (length file))
      (λ e. absurd (ground arith)) (λ _. found)
