-- ===== src/Container/IntrusiveList/Insert.antt =====
-- intrusive_list.hpp: `insert_before`.
use hologine.Base.{◌≡◌, refl, sym, ◌∙◌, ◌≢◌, some, List, [], ◌∷◌, ◌++◌, arith, ◌>>=◌, Option}
use hologine.Container.IntrusiveList.{
  Ptr, null, Node, node, Heap, update, set_next, set_previous, insert_before,
}
use hologine.Container.IntrusiveList.Cells.{
  set_next-some, set_previous-some, load-some, update_self, update_other,
}
use hologine.Container.IntrusiveList.Linked.{
  first, last, before_last, Linked, ◌∉◌, Apart, Distinct, not_mem-append, Distinct-append,
  Linked-append, Linked-join, Linked-update, last_not_mem, last_ne_null, last-node, Apart-head,
  Linked-relink, not_mem-last,
}

-- The last three writes of `insert_before`, into a heap `g` in which the list up to `position` is
-- done; `next` follows `position`, and `before` comes before it.
module _ (g : Heap) (p position before next was : Ptr) (old : Node) (nz : p ≢ null)
    (nzp : position ≢ null) (apart : p ≢ position) (here : g p ≡ some old)
    (there : g position ≡ some (node next was)) where
  abbrev moved : Heap
  moved = update g position (node next p)

  abbrev half_placed : Heap
  half_placed = update moved p (node position old.previous)

  abbrev placed : Heap
  placed = update half_placed p (node position before)

  abbrev writes : Option (Ptr × Heap)
  writes = do
    h₂ ← set_previous position p g
    h₃ ← set_next p position h₂
    h₄ ← set_previous p before h₃
    some (p, h₄)

  place : writes ≡ some (p, placed)
  place = ground (
    arith,
    set_previous-some g position p (node next was) nzp there,
    update_other g position p (node next p) apart,
    set_next-some moved p position old nz,
    update_self moved p (node position old.previous),
    set_previous-some half_placed p before (node position old.previous) nz,
  )

  -- The two nodes and those behind them are linked.
  Linked-placed :
      (ys : List Ptr)
      → next ≡ first ys null
      → p ∉ ys
      → position ∉ ys
      → Linked g position null ys
      → Linked placed before null (p ∷ position ∷ ys)
  Linked-placed ys e out out' l = (
    nz,
    update_self half_placed p (node position before),
    (
      nzp,
      ground (
        arith,
        e,
        update_other half_placed p position (node position before),
        update_other moved p position (node position old.previous),
        update_self g position (node next p),
      ),
      Linked-update half_placed position null p _ ys out (
          Linked-update moved position null p _ ys out
            (Linked-update g position null position _ ys out' l)),
    ),
  )

  -- What stands before them stays linked.
  Linked-front :
      (stop b : Ptr) (xs : List Ptr)
      → p ∉ xs
      → position ∉ xs
      → Linked g b stop xs
      → Linked placed b stop xs
  Linked-front stop b xs out out' l =
      Linked-update half_placed b stop p _ xs out
        (Linked-update moved b stop p _ xs out (Linked-update g b stop position _ xs out' l))

-- A list with a node in its middle, and another node that is not in it.
module _ (h : Heap) (p position : Ptr) (old : Node) (ys : List Ptr) (nz : p ≢ null)
    (here : h p ≡ some old) where
  Inserted : List Ptr → Type 0
  Inserted xs =
      (h' : Heap) × (insert_before p position h ≡ some (p, h'))
      × Linked h' null null (xs ++ (p ∷ position ∷ ys))

  insert_before-front :
      Distinct (position ∷ ys)
      → p ∉ (position ∷ ys)
      → Linked h null null (position ∷ ys)
      → Inserted []
  unfolding insert_before Inserted
  insert_before-front d out l = (
    placed h p position null (first ys null) null old nz l.0 out.0 here l.1,
    ground (
      arith,
      load-some h position (node (first ys null) null) l.0 l.1,
      place h p position null (first ys null) null old nz l.0 out.0 here l.1,
    ),
    Linked-placed h p position null (first ys null) null old nz l.0 out.0 here l.1 ys refl out.1 d.0
        l.2,
  )

  insert_before-behind :
      (x : Ptr) (xs : List Ptr)
      → Distinct (x ∷ xs)
      → Distinct (position ∷ ys)
      → Apart (x ∷ xs) (position ∷ ys)
      → p ∉ (x ∷ xs)
      → p ∉ (position ∷ ys)
      → Linked h null position (x ∷ xs)
      → Linked h (last x xs) null (position ∷ ys)
      → Inserted (x ∷ xs)
  unfolding insert_before Inserted
  insert_before-behind x xs dx d apart outx out lx l =
      let end = last x xs in
      let g : Heap = update h end (node p (before_last null x xs)) in
      let away : position ≢ end = λ e. (last_not_mem x xs (position ∷ ys) apart).0 (sym e) in
      let there : g position ≡ some (node (first ys null) end) =
        update_other h end position (node p (before_last null x xs)) away ∙ l.1 in
      let here' : g p ≡ some old =
        update_other h end p (node p (before_last null x xs)) (not_mem-last p x xs outx) ∙ here in
      (
        placed g p position end (first ys null) end old nz l.0 out.0 here' there,
        ground (
          arith,
          load-some h position (node (first ys null) end) l.0 l.1,
          last_ne_null h null position x xs lx,
          set_next-some h end p (node position (before_last null x xs))
              (last_ne_null h null position x xs lx) (last-node h null position x xs lx),
          place g p position end (first ys null) end old nz l.0 out.0 here' there,
        ),
        Linked-join _ null null (x ∷ xs) (p ∷ position ∷ ys)
            (Linked-front g p position end (first ys null) end old nz l.0 out.0 here' there p null
              (x ∷ xs) outx (Apart-head position (x ∷ xs) ys apart)
              (Linked-relink h null position p x xs dx lx))
            (Linked-placed g p position end (first ys null) end old nz l.0 out.0 here' there ys refl
              out.1 d.0
              (Linked-update h position null end _ ys (last_not_mem x xs (position ∷ ys) apart).1
                l.2)),
      )

-- Given a doubly linked list of distinct nodes and a node that is not in it, `insert_before`
-- succeeds, returns the node, and leaves the list doubly linked with the node just before the
-- given position.
pub insert_before-Linked :
    (h : Heap) (p position : Ptr) (old : Node) (xs ys : List Ptr)
    → p ≢ null
    → h p ≡ some old
    → p ∉ (xs ++ (position ∷ ys))
    → Distinct (xs ++ (position ∷ ys))
    → Linked h null null (xs ++ (position ∷ ys))
    → (h' : Heap) × (insert_before p position h ≡ some (p, h'))
      × Linked h' null null (xs ++ (p ∷ position ∷ ys))
unfolding Inserted
insert_before-Linked h p position old [] ys nz here out d l =
    insert_before-front h p position old ys nz here d out l
insert_before-Linked h p position old (x ∷ xs) ys nz here out d l =
    let (outx, outy) = not_mem-append p (x ∷ xs) (position ∷ ys) out in
    let (dx, dy, apart) = Distinct-append (x ∷ xs) (position ∷ ys) d in
    let (lx, ly) = Linked-append h null null (x ∷ xs) (position ∷ ys) l in
    insert_before-behind h p position old ys nz here x xs dx dy apart outx outy lx ly
