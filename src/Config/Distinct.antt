-- ===== src/Config/Distinct.antt =====
-- What `snsd_check_single` decides, stated without its loops.
use nvme_snsd.Base.{
  ℕ, ◌≡◌, ◌≢◌, ◌↔◌, refl, sym, ◌∙◌, Bool, true, false, if_true, if_false, Bool-cases, inl, inr,
  List, [], ◌∷◌, ◌++◌, arith, All, All-append,
}
use nvme_snsd.Config.Text.{str_eq_iff}
use nvme_snsd.Config.Options.{codes}
use nvme_snsd.Config.Conflict.{conflicts, refuses, check_from, snsd_check_single}

abbrev pub Apart : List ℕ → List (List ℕ) → Type 0
Apart ip = All (λ other. ip ≢ other)

-- The addresses are pairwise distinct.
abbrev pub Distinct : List (List ℕ) → Type 0
Distinct [] = Unit
Distinct (ip ∷ ips) = Apart ip ips × Distinct ips

-- Where any address is configured, it is the only one.
abbrev pub AnyOk : Bool → List ℕ → Type 0
AnyOk any ip = any ≡ true → ip ≡ codes "any"

conflicts-Apart :
    (ip : List ℕ) (others : List (List ℕ)) → conflicts ip others ≡ false → Apart ip others
unfolding conflicts
conflicts-Apart ip [] h = tt
conflicts-Apart ip (x ∷ xs) h = ground (arith, str_eq_iff ip x, conflicts-Apart ip xs)

Apart-conflicts :
    (ip : List ℕ) (others : List (List ℕ)) → Apart ip others → conflicts ip others ≡ false
unfolding conflicts
Apart-conflicts ip [] h = refl
Apart-conflicts ip (x ∷ xs) h = ground (arith, str_eq_iff ip x, Apart-conflicts ip xs h.1)

refuses-Apart :
    (any : Bool) (ip : List ℕ) (others : List (List ℕ))
    → refuses any ip others ≡ false
    → Apart ip others × AnyOk any ip
refuses-Apart any ip others h =
    ground (arith, str_eq_iff ip (codes "any"), conflicts-Apart ip others)

Apart-refuses :
    (any : Bool) (ip : List ℕ) (others : List (List ℕ))
    → Apart ip others
    → AnyOk any ip
    → refuses any ip others ≡ false
Apart-refuses any ip others h k =
    ground (arith, str_eq_iff ip (codes "any"), Apart-conflicts ip others h)

All_left : (xs ys : List (List ℕ)) (ip : List ℕ) → Apart ip (xs ++ ys) → Apart ip xs
All_left [] ys ip h = tt
All_left (x ∷ xs) ys ip h = (h.0, All_left xs ys ip h.1)

All_right : (xs ys : List (List ℕ)) (ip : List ℕ) → Apart ip (xs ++ ys) → Apart ip ys
All_right [] ys ip h = h
All_right (x ∷ xs) ys ip h = All_right xs ys ip h.1

-- What the check decides of the items from one on, by what holds of each.
abbrev Fine : Bool → List ℕ → List (List ℕ) → Type 0
Fine any head ips = Distinct ips × (All (λ ip. (ip ≢ head) × AnyOk any ip) ips)

check_from-Fine :
    (any : Bool) (head : List ℕ) (before after : List (List ℕ))
    → check_from any head before after ≡ true
    → Fine any head after
unfolding check_from
check_from-Fine any head before [] h = (tt, tt)
check_from-Fine any head before (ip ∷ after) h =
    let rest = check_from any head (before ++ ip ∷ []) after in
    elim (Bool-cases (refuses any ip (after ++ head ∷ before))) [
      | inl refused ↦ let wrong : false ≡ true = sym (if_true false rest refused) ∙ h in absurd cc
      | inr fine ↦
          let r = refuses-Apart any ip (after ++ head ∷ before) fine in
          let more =
            check_from-Fine any head (before ++ ip ∷ []) after
              (sym (if_false false rest fine) ∙ h) in
          (
            (All_left after (head ∷ before) ip r.0, more.0),
            (((All_right after (head ∷ before) ip r.0).0, r.1), more.1),
          )
    ]

-- The items from one on differ from those before it.
abbrev Cross : List (List ℕ) → List (List ℕ) → Type 0
Cross before = All (λ ip. Apart ip before)

Cross-step :
    (ip : List ℕ) (before after : List (List ℕ))
    → Cross before after
    → Apart ip after
    → Cross (before ++ ip ∷ []) after
Cross-step ip before [] c a = tt
Cross-step ip before (x ∷ xs) c a = (
  All-append (λ other. x ≢ other) before (ip ∷ []) c.0 ((λ e. a.0 (sym e)), tt),
  Cross-step ip before xs c.1 a.1,
)

Fine-check_from :
    (any : Bool) (head : List ℕ) (before after : List (List ℕ))
    → Cross before after
    → Fine any head after
    → check_from any head before after ≡ true
unfolding check_from
Fine-check_from any head before [] c h = refl
Fine-check_from any head before (ip ∷ after) c h =
    let others = All-append (λ other. ip ≢ other) after (head ∷ before) h.0.0 (h.1.0.0, c.0) in
    if_false _ _ (Apart-refuses any ip (after ++ head ∷ before) others h.1.0.1)
    ∙ Fine-check_from any head (before ++ ip ∷ []) after (Cross-step ip before after c.1 h.0.0)
        (h.0.1, h.1.1)

Cross-nil : (ips : List (List ℕ)) → Cross [] ips
Cross-nil [] = tt
Cross-nil (x ∷ xs) = (tt, Cross-nil xs)

-- The check of one list of networks succeeds exactly where the host addresses are pairwise distinct,
-- all are "any" where that is configured for switched networks, and none is what the bytes after the
-- list's head happen to spell.
pub check_single_iff :
    (any : Bool) (head : List ℕ) (ips : List (List ℕ))
    → (snsd_check_single any head ips ≡ true)
      ↔ (Distinct ips × All (λ ip. (ip ≢ head) × AnyOk any ip) ips)
unfolding snsd_check_single
check_single_iff any head ips =
    (check_from-Fine any head [] ips, Fine-check_from any head [] ips (Cross-nil ips))
