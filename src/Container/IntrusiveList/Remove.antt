-- ===== src/Container/IntrusiveList/Remove.antt =====
-- intrusive_list.hpp: `remove` and `unlink`.
use hologine.Base.{◌≡◌, refl, ◌∙◌, some, List, [], ◌∷◌, ◌++◌, arith}
use hologine.Container.IntrusiveList.{
  Ptr, null, node, Heap, update, set_next, set_previous, unless_null, remove, unlink,
}
use hologine.Container.IntrusiveList.Cells.{
  set_next-some, set_previous-some, load-some, update_self, update_other,
}
use hologine.Container.IntrusiveList.Linked.{
  first, last, before_last, Linked, ◌∉◌, Distinct, not_mem-append, Distinct-append, Linked-append,
  Linked-join, Linked-update, last_ne_null, last-node, Apart-head, Linked-relink,
  Linked-relink_first, not_mem-last, Apart-sym, Linked-Apart, not_mem-join,
}

-- The first guarded write: the segment in front gets another successor, and nothing else changes.
pub link_previous :
    (h : Heap) (stop stop' : Ptr) (xs : List Ptr)
    → Distinct xs
    → Linked h null stop xs
    → (g : Heap) × (unless_null (last null xs) (set_next (last null xs) stop') h ≡ some g)
      × Linked g null stop' xs
      × ((q : Ptr) → q ∉ xs → g q ≡ h q)
link_previous h stop stop' [] d l = (h, refl, tt, λ q out. refl)
link_previous h stop stop' (x ∷ xs) d l =
    let end = last x xs in
    let new = node stop' (before_last null x xs) in
    let nz = last_ne_null h null stop x xs l in
    (
      update h end new,
      ground (
        arith,
        nz,
        set_next-some h end stop' (node stop (before_last null x xs)) nz
            (last-node h null stop x xs l),
      ),
      Linked-relink h null stop stop' x xs d l,
      λ q out. update_other h end q new (not_mem-last q x xs out),
    )

-- The second one: the segment behind gets another predecessor, and nothing else changes.
pub link_next :
    (h : Heap) (before before' : Ptr) (ys : List Ptr)
    → Distinct ys
    → Linked h before null ys
    → (g : Heap) × (unless_null (first ys null) (set_previous (first ys null) before') h ≡ some g)
      × Linked g before' null ys
      × ((q : Ptr) → q ∉ ys → g q ≡ h q)
link_next h before before' [] d l = (h, refl, tt, λ q out. refl)
link_next h before before' (y ∷ ys) d l =
    let new = node (first ys null) before' in
    (
      update h y new,
      ground (arith, l.0, set_previous-some h y before' (node (first ys null) before) l.0 l.1),
      Linked-relink_first h before before' null y ys d.0 l,
      λ q out. update_other h y q new out.0,
    )

-- Given a doubly linked list of distinct nodes, `remove` of one of them succeeds and returns it,
-- leaves the others doubly linked in their order, and does not touch the removed node nor any node
-- outside of the list.
pub remove-Linked :
    (h : Heap) (p : Ptr) (xs ys : List Ptr)
    → Distinct (xs ++ (p ∷ ys))
    → Linked h null null (xs ++ (p ∷ ys))
    → (h' : Heap) × (remove p h ≡ some (p, h'))
      × Linked h' null null (xs ++ ys)
      × ((q : Ptr) → q ∉ (xs ++ ys) → h' q ≡ h q)
unfolding remove
remove-Linked h p xs ys d l =
    let (dx, dy, apart) = Distinct-append xs (p ∷ ys) d in
    let (lx, ly) = Linked-append h null null xs (p ∷ ys) l in
    let (g, e, gx, same) = link_previous h p (first ys null) xs dx lx in
    let away = Apart-sym xs (p ∷ ys) apart in
    let gy = Linked-Apart h g p null ys xs same away.1 ly.2 in
    let (g', e', gy', same') = link_next g p (last null xs) ys dy.1 gy in
    let gx' = Linked-Apart g g' null (first ys null) xs ys same' (Apart-sym ys xs away.1) gx in
    (
      g',
      rw (load-some h p (node (first ys null) (last null xs)) ly.0 ly.1, e, e'),
      Linked-join g' null null xs ys gx' gy',
      λ q out. let (a, b) = not_mem-append q xs ys out in same' q b ∙ same q a,
    )

-- `unlink` does the same, and clears the pointers of the node that it removes.
pub unlink-Linked :
    (h : Heap) (p : Ptr) (xs ys : List Ptr)
    → Distinct (xs ++ (p ∷ ys))
    → Linked h null null (xs ++ (p ∷ ys))
    → (h' : Heap) × (unlink p h ≡ some (p, h'))
      × Linked h' null null (xs ++ ys)
      × (h' p ≡ some (node null null))
unfolding unlink
unlink-Linked h p xs ys d l =
    let (g, e, gl, same) = remove-Linked h p xs ys d l in
    let (lx, ly) = Linked-append h null null xs (p ∷ ys) l in
    let (dx, dy, apart) = Distinct-append xs (p ∷ ys) d in
    let out = not_mem-join p xs ys (Apart-head p xs ys apart) dy.0 in
    let cell = same p out ∙ ly.1 in
    let g₁ : Heap = update g p (node null (last null xs)) in
    (
      update g₁ p (node null null),
      ground (
        arith,
        e,
        set_next-some g p null (node (first ys null) (last null xs)) ly.0 cell,
        update_self g p (node null (last null xs)),
        set_previous-some g₁ p null (node null (last null xs)) ly.0,
      ),
      Linked-update g₁ null null p _ (xs ++ ys) out
          (Linked-update g null null p _ (xs ++ ys) out gl),
      update_self g₁ p (node null null),
    )
