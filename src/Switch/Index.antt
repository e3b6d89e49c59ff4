-- ===== src/Switch/Index.antt =====
-- The map of indexes of a port, `switch_get_index` and `switch_put_index`.
use native.Mathlib.Nat.{div-eq-sub-div}
use nvme_snsd.Base.{
  ℕ, zero, suc, ◌+◌, ◌-◌, ◌/◌, ◌^◌, ◌≡◌, refl, ap, sym, ◌∙◌, ◌≤◌, ◌<◌, inl, inr, true, false, ◌==◌,
  if_cases, Bool-cases, ==_iff, if_true, if_false, test_bit, or_bit, clear_bit, arith,
}
use nvme_snsd.Switch.FdInfo.{get_index_from, switch_get_index, switch_put_index}

pow_pos : (i : ℕ) → 0 < 2 ^ i
pow_pos zero = omega arith
pow_pos (suc i) = omega (arith, pow_pos i)

or_then_test : (m i : ℕ) → test_bit m i ≡ false → test_bit (m + 2 ^ i) i ≡ true
or_then_test m i h =
    let up : (m + 2 ^ i) / 2 ^ i ≡ (m + 2 ^ i - 2 ^ i) / 2 ^ i + 1 =
      div-eq-sub-div (pow_pos i) (omega arith) in
    let same : m + 2 ^ i - 2 ^ i ≡ m = omega arith in
    let up' : (m + 2 ^ i) / 2 ^ i ≡ m / 2 ^ i + 1 = up ∙ ap (λ x. x / 2 ^ i + 1) same in
    ground (arith, up')

clear_or : (m i : ℕ) → test_bit m i ≡ false → clear_bit (or_bit m i) i ≡ m
clear_or m i h =
    ap (λ w. clear_bit w i) (if_false m (m + 2 ^ i) h)
    ∙ (if_true (m + 2 ^ i - 2 ^ i) (m + 2 ^ i) (or_then_test m i h) ∙ omega arith)

-- What a search over the `n` bits from `i` on promises.
abbrev pub Taken : ℕ → ℕ → ℕ → ℕ × ℕ → Type 0
Taken n i m (zero, m') = (m' ≡ m) × ((k : ℕ) → i ≤ k → k < i + n → test_bit m k ≡ true)
Taken n i m (suc k, m') =
    (i ≤ k)
    × (k < i + n)
    × (test_bit m k ≡ false)
    × (test_bit m' k ≡ true)
    × (switch_put_index m' (suc k) ≡ m)

shift : (n i m : ℕ) (r : ℕ × ℕ) → test_bit m i ≡ true → Taken n (suc i) m r → Taken (suc n) i m r
shift n i m (zero, m') set_i (same, all) = (
  same,
  λ k lo hi. elim (Bool-cases (i == k)) [
    | inl here ↦ ap (test_bit m) (sym ((==_iff i k).0 here)) ∙ set_i
    | inr there ↦ all k (ground arith) (omega arith)
  ],
)
shift n i m (suc k, m') set_i (lo, hi, clear, now_set, back) =
    (omega arith, omega arith, clear, now_set, back)

or_then_set : (m i : ℕ) → test_bit m i ≡ false → test_bit (or_bit m i) i ≡ true
or_then_set m i h = ap (λ w. test_bit w i) (if_false m (m + 2 ^ i) h) ∙ or_then_test m i h

get_index_from-Taken : (n i m : ℕ) → Taken n i m (get_index_from n i m)
unfolding get_index_from switch_put_index
get_index_from-Taken zero i m = (refl, λ k lo hi. absurd (omega arith))
get_index_from-Taken (suc n) i m =
    if_cases (Taken (suc n) i m) (test_bit m i)
      (λ taken. shift n i m _ taken (get_index_from-Taken n (suc i) m))
      (λ free. (omega arith, omega arith, free, or_then_set m i free, clear_or m i free))

-- The index that is taken is of a bit that was clear, from 1 to 64; giving it back restores the map;
-- and there is no index only when all 64 are taken.
pub get_index-Taken : (index_map : ℕ) → Taken 64 0 index_map (switch_get_index index_map)
unfolding switch_get_index
get_index-Taken index_map = get_index_from-Taken 64 0 index_map
