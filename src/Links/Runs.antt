-- ===== src/Links/Runs.antt =====
-- Sequences of operations on one list of src/snsd_list.h, against the list of its nodes.
use nvme_snsd.Base.{
  ℕ, ◌≡◌, ◌≢◌, inl, inr, sym, ap, subst, ◌==◌, if◌then◌else◌, Bool-cases, List, [], ◌∷◌, ◌++◌,
  arith,
}
use nvme_snsd.Links.{Heap, init_list_head, list_add, list_add_tail, list_del, Fresh, IsRing}
use nvme_snsd.Links.Nodes.{Among}
use nvme_snsd.Links.Rings.{list_del-IsRing, list_add_tail-IsRing, list_add-IsRing}

-- The operations on a list, with the node they are about.
pub data Op : Type 0 where
  add : ℕ → Op
  add_tail : ℕ → Op
  del : ℕ → Op

abbrev pub run_op : ℕ → Op → Heap → Heap
run_op head (add n) h = list_add n head h
run_op head (add_tail n) h = list_add_tail n head h
run_op head (del n) h = list_del n h

unfoldable pub run_ops : ℕ → List Op → Heap → Heap
run_ops head [] h = h
run_ops head (op ∷ ops) h = run_ops head ops (run_op head op h)

-- What the operations are to do: a list without a node,
abbrev pub without : ℕ → List ℕ → List ℕ
without e [] = []
without e (x ∷ xs) = if x == e then xs else x ∷ without e xs

-- and the list that an operation leaves.
abbrev pub nodes_after : Op → List ℕ → List ℕ
nodes_after (add n) xs = n ∷ xs
nodes_after (add_tail n) xs = xs ++ n ∷ []
nodes_after (del n) xs = without n xs

unfoldable pub all_nodes : List Op → List ℕ → List ℕ
all_nodes [] xs = xs
all_nodes (op ∷ ops) xs = all_nodes ops (nodes_after op xs)

-- What the caller sees to: a node that is added is on no list, and one that is deleted is on this one.
abbrev pub IsValid : ℕ → Op → List ℕ → Type 0
IsValid head (add n) xs = (head ≢ n) × Fresh n xs
IsValid head (add_tail n) xs = (head ≢ n) × Fresh n xs
IsValid head (del n) xs = Among n xs

abbrev pub AllValid : ℕ → List Op → List ℕ → Type 0
AllValid head [] xs = Unit
AllValid head (op ∷ ops) xs = IsValid head op xs × AllValid head ops (nodes_after op xs)

-- The nodes before and behind a node of a list.
record Split (e : ℕ) (xs : List ℕ) : Type 0 where
  before : List ℕ
  behind : List ℕ
  whole : xs ≡ before ++ e ∷ behind
  rest : without e xs ≡ before ++ behind

Split-cons : (e x : ℕ) (xs : List ℕ) → x ≢ e → Split e xs → Split e (x ∷ xs)
Split-cons e x xs ne s = record {
  before = x ∷ s.before;
  behind = s.behind;
  whole = ap (λ z. x ∷ z) s.whole;
  rest = grind (arith, s.rest);
}

at_head : (e x : ℕ) (xs : List ℕ) → x ≡ e → Split e (x ∷ xs)
at_head e x xs q = record {
  before = [];
  behind = xs;
  whole = ap (λ z. z ∷ xs) q;
  rest = ground (arith, q);
}

split_at : (e : ℕ) (xs : List ℕ) → Among e xs → Split e xs
split_at e [] m = absurd m
split_at e (x ∷ xs) (inl q) = at_head e x xs (sym q)
split_at e (x ∷ xs) (inr m) = elim (Bool-cases (x == e)) [
  | inl same ↦ at_head e x xs (ground arith)
  | inr other ↦ Split-cons e x xs (ground arith) (split_at e xs m)
]

del_without :
    (h : Heap) (head e : ℕ) (xs : List ℕ) (s : Split e xs)
    → IsRing h head xs
    → IsRing (list_del e h) head (without e xs)
del_without h head e xs s r =
    subst (IsRing (list_del e h) head) (sym s.rest)
      (list_del-IsRing h head e s.before s.behind (subst (IsRing h head) s.whole r))

run_op-IsRing :
    (h : Heap) (head : ℕ) (op : Op) (xs : List ℕ)
    → IsValid head op xs
    → IsRing h head xs
    → IsRing (run_op head op h) head (nodes_after op xs)
run_op-IsRing h head (add n) xs v r = list_add-IsRing h head n v.0 xs v.1 r
run_op-IsRing h head (add_tail n) xs v r = list_add_tail-IsRing h head n v.0 xs v.1 r
run_op-IsRing h head (del n) xs v r = del_without h head n xs (split_at n xs v) r

run_from :
    (h : Heap) (head : ℕ) (ops : List Op) (xs : List ℕ)
    → AllValid head ops xs
    → IsRing h head xs
    → IsRing (run_ops head ops h) head (all_nodes ops xs)
unfolding run_ops all_nodes
run_from h head [] xs v r = r
run_from h head (op ∷ ops) xs v r =
    run_from (run_op head op h) head ops (nodes_after op xs) v.1 (run_op-IsRing h head op xs v.0 r)

init_list_head-IsRing : (h : Heap) (head : ℕ) → IsRing (init_list_head head h) head []
unfolding init_list_head
init_list_head-IsRing h head = ((ground arith, ground arith), tt, tt)

-- From INIT_LIST_HEAD on, any sequence of list_add, list_add_tail and list_del, in which a node that is
-- added is not on the list and one that is deleted is on it, leaves in memory exactly the nodes that the
-- same operations leave on a sequence, in its order, linked both ways.
pub run_ops-IsRing :
    (h : Heap) (head : ℕ) (ops : List Op)
    → AllValid head ops []
    → IsRing (run_ops head ops (init_list_head head h)) head (all_nodes ops [])
run_ops-IsRing h head ops v =
    run_from (init_list_head head h) head ops [] v (init_list_head-IsRing h head)
