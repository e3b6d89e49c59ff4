-- ===== src/Links.antt =====
-- The doubly linked lists of src/snsd_list.h, in memory: an address has the two pointers of the node that
-- lies there.
pub mod Nodes
pub mod Rings
pub mod Runs
use nvme_snsd.Base.{ℕ, ◌≡◌, ◌≢◌, Bool, ◌==◌, if◌then◌else◌, List, [], ◌∷◌, All}

-- `struct list_head`, at every address.
pub record Heap : Type 0 where
  pub next : ℕ → ℕ
  pub prev : ℕ → ℕ

-- A write of one pointer.
abbrev pub update : (ℕ → ℕ) → ℕ → ℕ → ℕ → ℕ
update f a v x = if x == a then v else f x

abbrev pub set_next : ℕ → ℕ → Heap → Heap
set_next a v h = record h { next = update h.next a v }

abbrev pub set_prev : ℕ → ℕ → Heap → Heap
set_prev a v h = record h { prev = update h.prev a v }

-- `INIT_LIST_HEAD`.
unfoldable pub init_list_head : ℕ → Heap → Heap
init_list_head head h = set_next head head (set_prev head head h)

-- `list_add`, by its four writes.
unfoldable pub list_add : ℕ → ℕ → Heap → Heap
list_add newp head h =
    let h1 = set_prev (h.next head) newp h in
    let h2 = set_next newp (h1.next head) h1 in
    let h3 = set_prev newp head h2 in set_next head newp h3

-- `list_add_tail`.
unfoldable pub list_add_tail : ℕ → ℕ → Heap → Heap
list_add_tail newp head h =
    let h1 = set_next (h.prev head) newp h in
    let h2 = set_next newp head h1 in
    let h3 = set_prev newp (h2.prev head) h2 in set_prev head newp h3

-- `list_del`.
unfoldable pub list_del : ℕ → Heap → Heap
list_del elem h =
    let h1 = set_prev (h.next elem) (h.prev elem) h in set_next (h1.prev elem) (h1.next elem) h1

-- `list_splice`.
unfoldable pub list_splice : ℕ → ℕ → Heap → Heap
list_splice add head h =
    let h1 = set_prev (h.next add) head h in
    let h2 = set_next (h1.prev add) (h1.next head) h1 in
    let h3 = set_prev (h2.next head) (h2.prev add) h2 in
    let h4 = set_next head (h3.next add) h3 in if add == h.next add then h else h4

-- `list_empty`.
abbrev pub list_empty : ℕ → Heap → Bool
list_empty head h = h.next head == head

-- The nodes from `a` to `b`, with both their pointers.
abbrev pub Linked : Heap → ℕ → List ℕ → ℕ → Type 0
Linked h a [] b = (h.next a ≡ b) × (h.prev b ≡ a)
Linked h a (x ∷ xs) b = (h.next a ≡ x) × (h.prev x ≡ a) × Linked h x xs b

abbrev pub Fresh : ℕ → List ℕ → Type 0
Fresh a = All (λ x. a ≢ x)

abbrev pub Distinct : List ℕ → Type 0
Distinct [] = Unit
Distinct (x ∷ xs) = Fresh x xs × Distinct xs

-- The list of a head: these nodes, in this order, back to the head.
abbrev pub IsRing : Heap → ℕ → List ℕ → Type 0
IsRing h head xs = Linked h head xs head × Fresh head xs × Distinct xs
