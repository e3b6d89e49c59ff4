-- ===== src/Driver/Numbers.antt =====
-- Numbers are read back from their texts, for src/snsd_conn_nvme.c.
use nvme_snsd.Base.{
  ℕ, zero, suc, ◌+◌, ◌*◌, ◌/◌, ◌%◌, ◌^◌, ◌≤◌, ◌<◌, ◌≡◌, refl, ap, ◌∙◌, Bool, true, false, ltb,
  if_cases, List, [], ◌∷◌, All, some, pos, arith,
}
use nvme_snsd.Driver.Options.{decimal_onto, decimal}
use nvme_snsd.Driver.Create.{digit_value, digits_in, strtol}

pub digit_value-digit : (d : ℕ) → d < 10 → digit_value (48 + d) ≡ d
digit_value-digit d h = ground arith

pub digits_in_step :
    (n d : ℕ) (any : Bool) (rest : List ℕ)
    → d < 10
    → digits_in 10 n any ((48 + d) ∷ rest) ≡ digits_in 10 (n * 10 + d) true rest
unfolding digits_in
digits_in_step n d any rest h =
    if_cases (λ r. r ≡ digits_in 10 (n * 10 + d) true rest) (ltb (digit_value (48 + d)) 10)
      (λ e. ap (λ v. digits_in 10 (n * 10 + v) true rest) (digit_value-digit d h))
      λ e. absurd (ground (arith, digit_value-digit d h))

-- The digits of a number are read back.
pub digits_in-decimal :
    (f n : ℕ) (any : Bool) (rest : List ℕ)
    → n < 10 ^ suc f
    → digits_in 10 0 any (decimal_onto (suc f) n rest) ≡ digits_in 10 n true rest
unfolding decimal_onto
digits_in-decimal zero n any rest h =
    let first : 0 * 10 + n ≡ n = omega arith in
    if_cases (λ r. digits_in 10 0 any r ≡ digits_in 10 n true rest) (ltb n 10)
      (λ e. digits_in_step 0 n any rest (ground arith) ∙ ap (λ v. digits_in 10 v true rest) first)
      λ e. absurd (ground arith)
digits_in-decimal (suc f) n any rest h =
    let first : 0 * 10 + n ≡ n = omega arith in
    let whole : n / 10 * 10 + n % 10 ≡ n = omega arith in
    if_cases (λ r. digits_in 10 0 any r ≡ digits_in 10 n true rest) (ltb n 10)
      (λ e. digits_in_step 0 n any rest (ground arith) ∙ ap (λ v. digits_in 10 v true rest) first)
      λ e.
        digits_in-decimal f (n / 10) any ((48 + n % 10) ∷ rest) (omega arith)
        ∙ digits_in_step (n / 10) (n % 10) true rest (omega arith)
        ∙ ap (λ v. digits_in 10 v true rest) whole

-- The text of a number has digits, and only 0 begins with a 0.
abbrev pub IsDigit : ℕ → Type 0
IsDigit c = (48 ≤ c) × (c ≤ 57)

pub decimal_onto-IsDigit :
    (f n : ℕ) (rest : List ℕ) → All IsDigit rest → All IsDigit (decimal_onto f n rest)
unfolding decimal_onto
decimal_onto-IsDigit zero n rest h = h
decimal_onto-IsDigit (suc f) n rest h =
    if_cases (λ r. All IsDigit r) (ltb n 10) (λ e. ((omega arith, ground arith), h))
      λ e. decimal_onto-IsDigit f (n / 10) ((48 + n % 10) ∷ rest) ((omega arith, omega arith), h)

abbrev pub Leads : List ℕ → Type 0
Leads [] = ⊥
Leads (c ∷ cs) = (49 ≤ c) × (c ≤ 57)

pub decimal_onto-Leads :
    (f n : ℕ) (rest : List ℕ) → 1 ≤ n → n < 10 ^ suc f → Leads (decimal_onto (suc f) n rest)
unfolding decimal_onto
decimal_onto-Leads zero n rest one h =
    if_cases Leads (ltb n 10) (λ e. (omega arith, ground arith)) λ e. absurd (ground arith)
decimal_onto-Leads (suc f) n rest one h =
    if_cases Leads (ltb n 10) (λ e. (omega arith, ground arith))
      λ e. decimal_onto-Leads f (n / 10) ((48 + n % 10) ∷ rest) (ground arith) (omega arith)

pub strtol-Leads :
    (s : List ℕ) (n : ℕ) → Leads s → digits_in 10 0 false s ≡ some n → strtol s ≡ some (pos n)
unfolding strtol
strtol-Leads [] n h e = absurd h
strtol-Leads (c ∷ cs) n h e = ground (arith, e)

-- A number of an `int` is read back from its text.
pub strtol-decimal : (n : ℕ) → n < 2147483648 → strtol (decimal n) ≡ some (pos n)
unfolding strtol digits_in decimal_onto
strtol-decimal zero h = refl
strtol-decimal (suc n) h =
    strtol-Leads (decimal (suc n)) (suc n)
      (decimal_onto-Leads 9 (suc n) [] (omega arith) (omega arith))
      (digits_in-decimal 9 (suc n) false [] (omega arith))
