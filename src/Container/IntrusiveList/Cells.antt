-- ===== src/Container/IntrusiveList/Cells.antt =====
-- intrusive_list.hpp: single reads and writes through pointers that lead to a node.
use hologine.Base.{◌≡◌, ◌≢◌, some, arith}
use hologine.Container.IntrusiveList.{
  Ptr, null, Node, node, Heap, update, load, set_next, set_previous,
}

pub set_next-some :
    (h : Heap) (p q : Ptr) (n : Node)
    → p ≢ null
    → h p ≡ some n
    → set_next p q h ≡ some (update h p (node q n.previous))
unfolding set_next load
set_next-some h p q n nz e = ground (arith, e)

pub set_previous-some :
    (h : Heap) (p q : Ptr) (n : Node)
    → p ≢ null
    → h p ≡ some n
    → set_previous p q h ≡ some (update h p (node n.next q))
unfolding set_previous load
set_previous-some h p q n nz e = ground (arith, e)

pub load-some : (h : Heap) (p : Ptr) (n : Node) → p ≢ null → h p ≡ some n → load p h ≡ some n
unfolding load
load-some h p n nz e = ground (arith, e)

pub update_self : (h : Heap) (p : Ptr) (n : Node) → update h p n p ≡ some n
unfolding update
update_self h p n = ground arith

pub update_other : (h : Heap) (p q : Ptr) (n : Node) → q ≢ p → update h p n q ≡ h q
unfolding update
update_other h p q n ne = ground arith
