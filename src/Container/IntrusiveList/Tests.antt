-- ===== src/Container/IntrusiveList/Tests.antt =====
-- The theorems on intrusive_list.hpp at a list of three nodes, at the addresses 1, 2 and 3, with a
-- fourth node outside of it.
use hologine.Base.{◌≡◌, refl, none, some, [], ◌∷◌, arith, ◌==◌, if◌then◌else◌}
use hologine.Container.IntrusiveList.{Ptr, null, node, Heap, insert_before, remove}
use hologine.Container.IntrusiveList.Linked.{Linked, ◌∉◌}
use hologine.Container.IntrusiveList.Insert.{insert_before-Linked}
use hologine.Container.IntrusiveList.Remove.{remove-Linked}

abbrev heap : Heap
heap p =
    if p == 1
    then some (node 2 null)
    else if p == 2
    then some (node 3 1)
    else if p == 3
    then some (node null 2)
    else if p == 4
    then some (node 7 7)
    else none

three : Linked heap null null (1 ∷ 2 ∷ 3 ∷ [])
three = (
  (λ e. absurd (omega arith)),
  refl,
  ((λ e. absurd (omega arith)), refl, ((λ e. absurd (omega arith)), refl, tt)),
)

insert_before-Linked_example :
    (h : Heap) × (insert_before 4 2 heap ≡ some (4, h)) × Linked h null null (1 ∷ 4 ∷ 2 ∷ 3 ∷ [])
insert_before-Linked_example =
    insert_before-Linked heap 4 2 (node 7 7) (1 ∷ []) (3 ∷ []) (omega arith) refl (omega arith)
      (omega arith) three

remove-Linked_example :
    (h : Heap) × (remove 2 heap ≡ some (2, h))
    × Linked h null null (1 ∷ 3 ∷ [])
    × ((q : Ptr) → q ∉ (1 ∷ 3 ∷ []) → h q ≡ heap q)
remove-Linked_example = remove-Linked heap 2 (1 ∷ []) (3 ∷ []) (omega arith) three
