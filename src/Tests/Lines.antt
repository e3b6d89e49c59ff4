-- ===== src/Tests/Lines.antt =====
-- Runs of the log and of the doubly linked lists.
use nvme_snsd.Base.{
  ℕ, ◌≡◌, ◌<◌, ◌+◌, ◌↔◌, ◌≤◌, ◌*◌, inl, inr, refl, List, [], ◌∷◌, length, none, arith,
}
use nvme_snsd.Log.{snsd_print_line, Limit, printed, printed_twice, print_line-none_iff}
use nvme_snsd.Links.{Heap, init_list_head, IsRing}
use nvme_snsd.Links.Runs.{Op, add, add_tail, del, run_ops, all_nodes, run_ops-IsRing}

-- Five messages, the first at the end of an earlier period.
abbrev times : List ℕ
times = 60 ∷ 61 ∷ 61 ∷ 100 ∷ 120 ∷ []

abbrev used_up : Limit
used_up = record { pre = 0; print_cnt = 1 }

three_printed : printed 2 60 times used_up ≡ 3
unfolding printed
three_printed = refl

printed_twice_example : printed 2 60 times used_up ≤ 2 * 2
printed_twice_example = printed_twice 2 60 60 times used_up (omega arith) (
  (omega arith, omega arith),
  (
    (omega arith, omega arith),
    ((omega arith, omega arith), ((omega arith, omega arith), ((omega arith, omega arith), tt))),
  ),
)

abbrev level : List ℕ
level = b'[' ∷ b'E' ∷ b'R' ∷ b'R' ∷ b']' ∷ []

abbrev message : List ℕ
message = b'x' ∷ []

print_line-none_iff_example :
    (snsd_print_line level message (b':' ∷ []) ≡ none) ↔ (1024 < length level + 1 + length message)
print_line-none_iff_example = print_line-none_iff level message (b':' ∷ [])

abbrev memory : Heap
memory = record { next = λ x. 0; prev = λ x. 0 }

abbrev ops : List Op
ops = add 2 ∷ add_tail 3 ∷ add 4 ∷ del 2 ∷ []

nodes_left : all_nodes ops [] ≡ 4 ∷ 3 ∷ []
unfolding all_nodes
nodes_left = refl

run_ops-IsRing_example : IsRing (run_ops 1 ops (init_list_head 1 memory)) 1 (all_nodes ops [])
run_ops-IsRing_example = run_ops-IsRing memory 1 ops (
  ((λ q. omega arith), tt),
  (
    ((λ q. omega arith), ((λ q. omega arith), tt)),
    (((λ q. omega arith), ((λ q. omega arith), ((λ q. omega arith), tt))), (inr (inl refl), tt)),
  ),
)
