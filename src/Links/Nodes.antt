-- ===== src/Links/Nodes.antt =====
-- Nodes linked from one address to another, for src/snsd_list.h, and lemmas on lists of addresses.
use nvme_snsd.Base.{
  ℕ, ◌≡◌, ◌≢◌, ◌⊎◌, inl, inr, ◌∙◌, List, [], ◌∷◌, ◌++◌, All, All-append, All-map_pred, arith,
}
use nvme_snsd.Links.{Heap, update, Linked, Fresh, Distinct}

abbrev pub SameNext : Heap → Heap → ℕ → Type 0
SameNext h k x = k.next x ≡ h.next x

abbrev pub SamePrev : Heap → Heap → ℕ → Type 0
SamePrev h k x = k.prev x ≡ h.prev x

-- Writes elsewhere keep the nodes linked.
pub frame_links :
    (h k : Heap) (a b : ℕ) (xs : List ℕ)
    → SameNext h k a
    → All (SameNext h k) xs
    → All (SamePrev h k) xs
    → SamePrev h k b
    → Linked h a xs b
    → Linked k a xs b
frame_links h k a b [] n ns ps p l = (n ∙ l.0, p ∙ l.1)
frame_links h k a b (x ∷ xs) n ns ps p l =
    (n ∙ l.0, ps.0 ∙ l.1, frame_links h k x b xs ns.0 ns.1 ps.1 p l.2)

pub Linked-append :
    (h : Heap) (a x b : ℕ) (xs ys : List ℕ)
    → Linked h a (xs ++ x ∷ ys) b
    → Linked h a xs x × Linked h x ys b
Linked-append h a x b [] ys l = ((l.0, l.1), l.2)
Linked-append h a x b (y ∷ xs) ys l =
    let (before, behind) = Linked-append h y x b xs ys l.2 in ((l.0, l.1, before), behind)

pub append-Linked :
    (h : Heap) (a x b : ℕ) (xs ys : List ℕ)
    → Linked h a xs x
    → Linked h x ys b
    → Linked h a (xs ++ x ∷ ys) b
append-Linked h a x b [] ys l m = (l.0, l.1, m)
append-Linked h a x b (y ∷ xs) ys l m = (l.0, l.1, append-Linked h y x b xs ys l.2 m)

-- The node before the end is one of the nodes, or the beginning.
abbrev pub Among : ℕ → List ℕ → Type 0
Among x [] = ⊥
Among x (y ∷ ys) = (x ≡ y) ⊎ Among x ys

pub prev-Among : (h : Heap) (a b : ℕ) (xs : List ℕ) → Linked h a xs b → Among (h.prev b) (a ∷ xs)
prev-Among h a b [] l = inl l.1
prev-Among h a b (x ∷ xs) l = inr (prev-Among h x b xs l.2)

pub next-Among :
    (h : Heap) (a b : ℕ) (xs : List ℕ) → Linked h a xs b → Among (h.next a) (xs ++ b ∷ [])
next-Among h a b [] l = inl l.0
next-Among h a b (x ∷ xs) l = inl l.0

pub Fresh-ne : (a x : ℕ) (xs : List ℕ) → Fresh a xs → Among x xs → a ≢ x
Fresh-ne a x [] f m = absurd m
Fresh-ne a x (y ∷ ys) f (inl e) = λ q. f.0 (q ∙ e)
Fresh-ne a x (y ∷ ys) f (inr m) = Fresh-ne a x ys f.1 m

pub update_other : (f : ℕ → ℕ) (a v x : ℕ) → x ≢ a → update f a v x ≡ f x
update_other f a v x ne = ground arith

pub update_self : (f : ℕ → ℕ) (a v : ℕ) → update f a v a ≡ v
update_self f a v = ground arith

pub All-split : (P : ℕ → Type 0) (xs ys : List ℕ) → All P (xs ++ ys) → All P xs × All P ys
All-split P [] ys h = (tt, h)
All-split P (x ∷ xs) ys h = let (l, r) = All-split P xs ys h.1 in ((h.0, l), r)

pub Distinct-split :
    (xs ys : List ℕ) → Distinct (xs ++ ys) → Distinct xs × Distinct ys × All (λ x. Fresh x ys) xs
Distinct-split [] ys d = (tt, d, tt)
Distinct-split (x ∷ xs) ys d =
    let (fresh, apart) = All-split (λ z. x ≢ z) xs ys d.0 in
    let (l, r, f) = Distinct-split xs ys d.1 in ((fresh, l), r, (apart, f))

pub Distinct-append :
    (xs ys : List ℕ) → Distinct xs → Distinct ys → All (λ x. Fresh x ys) xs → Distinct (xs ++ ys)
Distinct-append [] ys d e f = e
Distinct-append (x ∷ xs) ys d e f =
    (All-append (λ z. x ≢ z) xs ys d.0 f.0, Distinct-append xs ys d.1 e f.1)

pub All-both : (P Q : ℕ → Type 0) (xs : List ℕ) → All P xs → All Q xs → All (λ x. P x × Q x) xs
All-both P Q [] h k = tt
All-both P Q (x ∷ xs) h k = ((h.0, k.0), All-both P Q xs h.1 k.1)

pub behind_Fresh :
    (e : ℕ) (xs ys : List ℕ) → All (λ x. Fresh x (e ∷ ys)) xs → All (λ x. Fresh x ys) xs
behind_Fresh e xs ys h = All-map_pred (λ x. Fresh x (e ∷ ys)) (λ x. Fresh x ys) (λ x f. f.1) xs h
