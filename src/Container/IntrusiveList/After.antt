-- ===== src/Container/IntrusiveList/After.antt =====
-- intrusive_list.hpp: `insert_after`, which follows the wrong pointer of its position.
use hologine.Base.{◌≡◌, sym, ◌∙◌, ◌≢◌, some, List, [], ◌∷◌, ◌++◌, arith, ◌>>=◌, Option}
use hologine.Container.IntrusiveList.{
  Ptr, null, Node, node, Heap, update, set_next, set_previous, insert_after,
}
use hologine.Container.IntrusiveList.Cells.{
  set_next-some, set_previous-some, load-some, update_self, update_other,
}
use hologine.Container.IntrusiveList.Linked.{
  last, Linked, ◌∉◌, Distinct, not_mem-append, Distinct-append, Linked-append, Linked-update,
  Apart-head,
}
use hologine.Container.IntrusiveList.Remove.{link_previous}

-- The last three writes, into a heap `g`.
module _ (g : Heap) (p position next : Ptr) (at old : Node) (nz : p ≢ null) (nzp : position ≢ null)
    (apart : p ≢ position) (there : g position ≡ some at) (here : g p ≡ some old) where
  abbrev chained : Heap
  chained = update g position (node p at.previous)

  abbrev half_placed : Heap
  half_placed = update chained p (node next old.previous)

  abbrev placed : Heap
  placed = update half_placed p (node next position)

  abbrev writes : Option (Ptr × Heap)
  writes = do
    h₃ ← set_next position p g
    h₄ ← set_next p next h₃
    h₅ ← set_previous p position h₄
    some (p, h₅)

  place : writes ≡ some (p, placed)
  place = ground (
    arith,
    set_next-some g position p at nzp there,
    update_other g position p (node p at.previous) apart,
    set_next-some chained p next old nz,
    update_self chained p (node next old.previous),
    set_previous-some half_placed p position (node next old.previous) nz,
  )

  placed_position : placed position ≡ some (node p at.previous)
  placed_position = ground (
    arith,
    update_other half_placed p position (node next position),
    update_other chained p position (node next old.previous),
    update_self g position (node p at.previous),
  )

  Linked-placed :
      (before stop : Ptr) (xs : List Ptr)
      → p ∉ xs
      → position ∉ xs
      → Linked g before stop xs
      → Linked placed before stop xs
  Linked-placed before stop xs out out' l = Linked-update half_placed before stop p _ xs out (
      Linked-update chained before stop p _ xs out
        (Linked-update g before stop position _ xs out' l))

-- After `insert_after` at the last of several nodes the nodes before it are followed by the new
-- node and the new node by none, so that the position is lost to a walk from the front, although it
-- still points to the new node, and the new node back at it. (A position alone in its list is
-- the case of no `xs`, where nothing is lost.)
pub insert_after-tail :
    (h : Heap) (p position : Ptr) (old : Node) (xs : List Ptr)
    → p ≢ null
    → h p ≡ some old
    → p ∉ (xs ++ (position ∷ []))
    → Distinct (xs ++ (position ∷ []))
    → Linked h null null (xs ++ (position ∷ []))
    → (h' : Heap) × (insert_after p position h ≡ some (p, h'))
      × Linked h' null p xs
      × (h' p ≡ some (node null position))
      × (h' position ≡ some (node p (last null xs)))
unfolding insert_after
insert_after-tail h p position old xs nz here out d l =
    let (dx, dy, apart) = Distinct-append xs (position ∷ []) d in
    let (lx, ly) = Linked-append h null null xs (position ∷ []) l in
    let (outx, outy) = not_mem-append p xs (position ∷ []) out in
    let (g, e, gx, same) = link_previous h position p xs dx lx in
    let outp = Apart-head position xs [] apart in
    let there = same position outp ∙ ly.1 in
    let here' = same p outx ∙ here in
    let at = node null (last null xs) in
    (
      placed g p position null at old nz ly.0 outy.0 there here',
      ground (
        arith,
        load-some h position at ly.0 ly.1,
        e,
        place g p position null at old nz ly.0 outy.0 there here',
      ),
      Linked-placed g p position null at old nz ly.0 outy.0 there here' null p xs outx outp gx,
      update_self _ p (node null position),
      placed_position g p position null at old nz ly.0 outy.0 there here',
    )

-- After `insert_after` at a node that has a successor the walk from the front is right, through
-- the position and the new node to the successor, but the way back is not: the position's
-- `previous` is the new node, and the successor's is still the position.
pub insert_after-middle :
    (h : Heap) (p position next : Ptr) (old : Node) (xs ys : List Ptr)
    → p ≢ null
    → h p ≡ some old
    → p ∉ (xs ++ (position ∷ next ∷ ys))
    → Distinct (xs ++ (position ∷ next ∷ ys))
    → Linked h null null (xs ++ (position ∷ next ∷ ys))
    → (h' : Heap) × (insert_after p position h ≡ some (p, h'))
      × Linked h' null position xs
      × (h' position ≡ some (node p p))
      × (h' p ≡ some (node next position))
      × Linked h' position null (next ∷ ys)
unfolding insert_after
insert_after-middle h p position next old xs ys nz here out d l =
    let (dx, dy, apart) = Distinct-append xs (position ∷ next ∷ ys) d in
    let (lx, ly) = Linked-append h null null xs (position ∷ next ∷ ys) l in
    let (outx, outy) = not_mem-append p xs (position ∷ next ∷ ys) out in
    let outp = Apart-head position xs (next ∷ ys) apart in
    let at = node next (last null xs) in
    let g₁ : Heap = update h position (node next p) in
    let here₁ = update_other h position p (node next p) outy.0 ∙ here in
    let g₂ : Heap = update g₁ p (node p old.previous) in
    let there₂ : g₂ position ≡ some (node next p) =
      update_other g₁ p position (node p old.previous) (λ e. outy.0 (sym e))
      ∙ update_self h position (node next p) in
    let here₂ = update_self g₁ p (node p old.previous) in
    let mid = node next p in
    let was = node p old.previous in
    (
      placed g₂ p position next mid was nz ly.0 outy.0 there₂ here₂,
      ground (
        arith,
        load-some h position at ly.0 ly.1,
        ly.2.0,
        set_previous-some h position p at ly.0 ly.1,
        load-some g₁ position mid ly.0 (update_self h position (node next p)),
        set_next-some g₁ p p old nz here₁,
        place g₂ p position next mid was nz ly.0 outy.0 there₂ here₂,
      ),
      Linked-placed g₂ p position next mid was nz ly.0 outy.0 there₂ here₂ null position xs outx
          outp
          (Linked-update g₁ null position p _ xs outx
            (Linked-update h null position position _ xs outp lx)),
      placed_position g₂ p position next mid was nz ly.0 outy.0 there₂ here₂,
      update_self _ p (node next position),
      Linked-placed g₂ p position next mid was nz ly.0 outy.0 there₂ here₂ position null (next ∷ ys)
          outy.1 dy.0
          (Linked-update g₁ position null p _ (next ∷ ys) outy.1
            (Linked-update h position null position _ (next ∷ ys) dy.0 ly.2)),
    )
