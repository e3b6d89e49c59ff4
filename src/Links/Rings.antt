-- ===== src/Links/Rings.antt =====
-- The operations of src/snsd_list.h do to the nodes in memory what they are to do to a list.
use nvme_snsd.Base.{
  ℕ, ◌≡◌, ◌≢◌, refl, sym, subst, ◌∙◌, List, [], ◌∷◌, ◌++◌, All, All-append, All-map_pred, arith,
}
use nvme_snsd.Links.{
  Heap, update, list_add, list_add_tail, list_del, Linked, Fresh, Distinct, IsRing,
}
use nvme_snsd.Links.Nodes.{
  SameNext, SamePrev, frame_links, Linked-append, append-Linked, prev-Among, next-Among, Fresh-ne,
  update_other, update_self, All-split, Distinct-split, Distinct-append, All-both, behind_Fresh,
}

-- The heap after a deletion, by two writes.
del_prev : (h : Heap) (e x : ℕ) → (list_del e h).prev x ≡ update h.prev (h.next e) (h.prev e) x
unfolding list_del
del_prev h e x = refl

del_next : (h : Heap) (e x : ℕ) → (list_del e h).next x ≡ update h.next (h.prev e) (h.next e) x
unfolding list_del
del_next h e x = ground arith

module _ (h : Heap) (e : ℕ) where
  kept_next : (x : ℕ) → h.prev e ≢ x → SameNext h (list_del e h) x
  kept_next x ne = del_next h e x ∙ update_other h.next (h.prev e) (h.next e) x (λ q. ne (sym q))

  kept_prev : (x : ℕ) → h.next e ≢ x → SamePrev h (list_del e h) x
  kept_prev x ne = del_prev h e x ∙ update_other h.prev (h.next e) (h.prev e) x (λ q. ne (sym q))

  each_kept_next : (xs : List ℕ) → Fresh (h.prev e) xs → All (SameNext h (list_del e h)) xs
  each_kept_next xs = All-map_pred (λ x. h.prev e ≢ x) (SameNext h (list_del e h)) kept_next xs

  each_kept_prev : (xs : List ℕ) → Fresh (h.next e) xs → All (SamePrev h (list_del e h)) xs
  each_kept_prev xs = All-map_pred (λ x. h.next e ≢ x) (SamePrev h (list_del e h)) kept_prev xs

  -- The neighbours are linked to each other.
  joined : (list_del e h).next (h.prev e) ≡ h.next e
  joined = del_next h e (h.prev e) ∙ update_self h.next (h.prev e) (h.next e)

  joined_back : (list_del e h).prev (h.next e) ≡ h.prev e
  joined_back = del_prev h e (h.next e) ∙ update_self h.prev (h.next e) (h.prev e)

-- A node is taken out between its neighbours.
relinked :
    (h : Heap) (a e b : ℕ) (xs ys : List ℕ)
    → Linked h a xs e
    → Linked h e ys b
    → Fresh a xs
    → Fresh a ys
    → Fresh b xs
    → Fresh b ys
    → Distinct xs
    → Distinct ys
    → All (λ x. Fresh x ys) xs
    → Linked (list_del e h) a (xs ++ ys) b
relinked h a e b [] [] l m ax ay bx by dx dy xy =
    let before : h.prev e ≡ a = l.1 in
    let behind : h.next e ≡ b = m.0 in
    (
      subst (λ p. (list_del e h).next p ≡ b) before (joined h e ∙ behind),
      subst (λ n. (list_del e h).prev n ≡ a) behind (joined_back h e ∙ before),
    )
relinked h a e b [] (y ∷ ys) l m ax ay bx by dx dy xy =
    let before : h.prev e ≡ a = l.1 in
    let behind : h.next e ≡ y = m.0 in
    let from_y : Fresh (h.next e) ys = subst (λ n. Fresh n ys) (sym behind) dy.0 in
    let from_a : Fresh (h.prev e) (y ∷ ys) = subst (λ p. Fresh p (y ∷ ys)) (sym before) ay in
    (
      subst (λ p. (list_del e h).next p ≡ y) before (joined h e ∙ behind),
      subst (λ n. (list_del e h).prev n ≡ a) behind (joined_back h e ∙ before),
      frame_links h (list_del e h) y b ys (kept_next h e y from_a.0)
          (each_kept_next h e ys from_a.1) (each_kept_prev h e ys from_y)
          (kept_prev h e b λ q. by.0 (sym q ∙ behind)) m.2,
    )
relinked h a e b (x ∷ xs) ys l m ax ay bx by dx dy xy = (
  kept_next h e a (λ q. Fresh-ne a (h.prev e) (x ∷ xs) ax (prev-Among h x e xs l.2) (sym q)) ∙ l.0,
  kept_prev h e x (λ q.
        Fresh-ne x (h.next e) (ys ++ b ∷ [])
          (All-append (λ z. x ≢ z) ys (b ∷ []) xy.0 (λ r. bx.0 (sym r), tt)) (next-Among h e b ys m)
          (sym q))
      ∙ l.1,
  relinked h x e b xs ys l.2 m dx.0 xy.0 bx.1 by dx.1 dy xy.1,
)

-- A deletion takes the node out of its list, and keeps the order of the others.
pub list_del-IsRing :
    (h : Heap) (head e : ℕ) (xs ys : List ℕ)
    → IsRing h head (xs ++ e ∷ ys)
    → IsRing (list_del e h) head (xs ++ ys)
list_del-IsRing h head e xs ys (links, fresh, distinct) =
    let (l, m) = Linked-append h head e head xs ys links in
    let (fx, fy) = All-split (λ z. head ≢ z) xs (e ∷ ys) fresh in
    let (dx, dy, apart) = Distinct-split xs (e ∷ ys) distinct in
    let far = behind_Fresh e xs ys apart in
    (
      relinked h head e head xs ys l m fx fy.1 fx fy.1 dx dy.1 far,
      All-append (λ z. head ≢ z) xs ys fx fy.1,
      Distinct-append xs ys dx dy.1 far,
    )

module _ (h : Heap) (head n : ℕ) (other : head ≢ n) where
  -- The nodes up to the new one.
  tail_links :
      (a : ℕ) (xs : List ℕ)
      → Fresh a xs
      → Fresh head xs
      → Fresh n xs
      → n ≢ a
      → Distinct xs
      → Linked h a xs head
      → Linked (list_add_tail n head h) a xs n
  unfolding list_add_tail
  tail_links a [] fa fh fn na d l = (ground arith, ground arith)
  tail_links a (x ∷ xs) fa fh fn na d l =
      let last = prev-Among h x head xs l.2 in
      let apart : a ≢ h.prev head = Fresh-ne a (h.prev head) (x ∷ xs) fa last in
      (ground arith, ground arith, tail_links x xs d.0 fh.1 fn.1 fn.0 d.1 l.2)

  end_links : Linked (list_add_tail n head h) n [] head
  unfolding list_add_tail
  end_links = (ground arith, ground arith)

  pub list_add_tail-IsRing :
      (xs : List ℕ)
      → Fresh n xs
      → IsRing h head xs
      → IsRing (list_add_tail n head h) head (xs ++ n ∷ [])
  list_add_tail-IsRing xs fn (links, fresh, distinct) = (
    append-Linked (list_add_tail n head h) head n head xs []
        (tail_links head xs fresh fresh fn (λ q. other (sym q)) distinct links) end_links,
    All-append (λ z. head ≢ z) xs (n ∷ []) fresh (other, tt),
    Distinct-append xs (n ∷ []) distinct (tt, tt)
        (All-map_pred (λ x. n ≢ x) (λ x. Fresh x (n ∷ [])) (λ x f. (λ q. f (sym q), tt)) xs fn),
  )

  -- The nodes behind the new one.
  head_links :
      (xs : List ℕ)
      → Fresh head xs
      → Fresh n xs
      → Distinct xs
      → Linked h head xs head
      → Linked (list_add n head h) n xs head
  unfolding list_add
  head_links [] fh fn d l = (ground arith, ground arith)
  head_links (x ∷ xs) fh fn d l = (
    ground arith,
    ground arith,
    frame_links h (list_add n head h) x head xs (ground arith)
        (All-map_pred (λ z. (head ≢ z) × (n ≢ z)) (SameNext h (list_add n head h))
          (λ z f. ground arith) xs (All-both (λ z. head ≢ z) (λ z. n ≢ z) xs fh.1 fn.1))
        (All-map_pred (λ z. (x ≢ z) × (n ≢ z)) (SamePrev h (list_add n head h))
          (λ z f. ground arith) xs (All-both (λ z. x ≢ z) (λ z. n ≢ z) xs d.0 fn.1))
        (ground arith) l.2,
  )

  start_links : ((list_add n head h).next head ≡ n) × ((list_add n head h).prev n ≡ head)
  unfolding list_add
  start_links = (ground arith, ground arith)

  pub list_add-IsRing :
      (xs : List ℕ) → Fresh n xs → IsRing h head xs → IsRing (list_add n head h) head (n ∷ xs)
  list_add-IsRing xs fn (links, fresh, distinct) =
      let (forth, back) = start_links in
      ((forth, back, head_links xs fresh fn distinct links), (other, fresh), (fn, distinct))
