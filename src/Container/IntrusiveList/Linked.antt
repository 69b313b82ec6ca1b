-- ===== src/Container/IntrusiveList/Linked.antt =====
-- Doubly linked segments of an intrusive list.
use hologine.Base.{◌≡◌, sym, ◌≢◌, ◌∙◌, some, List, [], ◌∷◌, ◌++◌, arith}
use hologine.Container.IntrusiveList.{Ptr, null, Node, node, Heap, update}

-- The first node of a segment that is followed by `stop`, and the last of one that is preceded by
-- `before`.
abbrev pub first : List Ptr → Ptr → Ptr
first [] stop = stop
first (x ∷ xs) stop = x

abbrev pub last : Ptr → List Ptr → Ptr
last before [] = before
last before (x ∷ xs) = last x xs

-- The nodes `xs` are linked both ways, between `before` and `stop`.
abbrev pub Linked : Heap → Ptr → Ptr → List Ptr → Type 0
Linked h before stop [] = Unit
Linked h before stop (x ∷ xs) =
    (x ≢ null) × (h x ≡ some (node (first xs stop) before)) × Linked h x stop xs

infix 40 ◌∉◌
abbrev pub ◌∉◌ : Ptr → List Ptr → Type 0
p ∉ [] = Unit
p ∉ (x ∷ xs) = (p ≢ x) × (p ∉ xs)

abbrev pub Apart : List Ptr → List Ptr → Type 0
Apart [] ys = Unit
Apart (x ∷ xs) ys = (x ∉ ys) × Apart xs ys

abbrev pub Distinct : List Ptr → Type 0
Distinct [] = Unit
Distinct (x ∷ xs) = (x ∉ xs) × Distinct xs

pub not_mem-append : (p : Ptr) (xs ys : List Ptr) → p ∉ (xs ++ ys) → (p ∉ xs) × (p ∉ ys)
not_mem-append p [] ys h = (tt, h)
not_mem-append p (x ∷ xs) ys (e, h) = let (a, b) = not_mem-append p xs ys h in ((e, a), b)

pub Distinct-append :
    (xs ys : List Ptr) → Distinct (xs ++ ys) → Distinct xs × Distinct ys × Apart xs ys
Distinct-append [] ys d = (tt, d, tt)
Distinct-append (x ∷ xs) ys (out, d) =
    let (a, b) = not_mem-append x xs ys out in
    let (p, q, r) = Distinct-append xs ys d in ((a, p), q, (b, r))

pub Linked-append :
    (h : Heap) (before stop : Ptr) (xs ys : List Ptr)
    → Linked h before stop (xs ++ ys)
    → Linked h before (first ys stop) xs × Linked h (last before xs) stop ys
Linked-append h before stop [] ys l = (tt, l)
Linked-append h before stop (x ∷ []) ys (ne, e, l) = ((ne, e, tt), l)
Linked-append h before stop (x ∷ y ∷ xs) ys (ne, e, l) =
    let (a, b) = Linked-append h x stop (y ∷ xs) ys l in ((ne, e, a), b)

pub Linked-join :
    (h : Heap) (before stop : Ptr) (xs ys : List Ptr)
    → Linked h before (first ys stop) xs
    → Linked h (last before xs) stop ys
    → Linked h before stop (xs ++ ys)
Linked-join h before stop [] ys a b = b
Linked-join h before stop (x ∷ []) ys (ne, e, a) b = (ne, e, b)
Linked-join h before stop (x ∷ y ∷ xs) ys (ne, e, a) b =
    (ne, e, Linked-join h x stop (y ∷ xs) ys a b)

-- A write elsewhere leaves a segment alone.
pub Linked-update :
    (h : Heap) (before stop p : Ptr) (n : Node) (xs : List Ptr)
    → p ∉ xs
    → Linked h before stop xs
    → Linked (update h p n) before stop xs
unfolding update
Linked-update h before stop p n [] out l = tt
Linked-update h before stop p n (x ∷ xs) (ne, out) (nz, e, l) =
    (nz, ground arith, Linked-update h x stop p n xs out l)

pub last_not_mem : (x : Ptr) (xs ys : List Ptr) → Apart (x ∷ xs) ys → last x xs ∉ ys
last_not_mem x [] ys a = a.0
last_not_mem x (y ∷ xs) ys a = last_not_mem y xs ys a.1

pub last_ne_null :
    (h : Heap) (before stop x : Ptr) (xs : List Ptr)
    → Linked h before stop (x ∷ xs)
    → last x xs ≢ null
last_ne_null h before stop x [] l = l.0
last_ne_null h before stop x (y ∷ xs) l = last_ne_null h x stop y xs l.2

-- The node before the last one.
abbrev pub before_last : Ptr → Ptr → List Ptr → Ptr
before_last before x [] = before
before_last before x (y ∷ xs) = before_last x y xs

pub last-node :
    (h : Heap) (before stop x : Ptr) (xs : List Ptr)
    → Linked h before stop (x ∷ xs)
    → h (last x xs) ≡ some (node stop (before_last before x xs))
last-node h before stop x [] l = l.1
last-node h before stop x (y ∷ xs) l = last-node h x stop y xs l.2

pub not_mem-last : (x y : Ptr) (xs : List Ptr) → x ∉ (y ∷ xs) → x ≢ last y xs
not_mem-last x y [] out = out.0
not_mem-last x y (z ∷ xs) out = not_mem-last x z xs out.1

pub Apart-head : (y : Ptr) (xs ys : List Ptr) → Apart xs (y ∷ ys) → y ∉ xs
Apart-head y [] ys a = tt
Apart-head y (x ∷ xs) ys a = (λ e. a.0.0 (sym e), Apart-head y xs ys a.1)

-- Giving the last node another successor.
pub Linked-relink :
    (h : Heap) (before stop stop' x : Ptr) (xs : List Ptr)
    → Distinct (x ∷ xs)
    → Linked h before stop (x ∷ xs)
    → Linked (update h (last x xs) (node stop' (before_last before x xs))) before stop' (x ∷ xs)
unfolding update
Linked-relink h before stop stop' x [] d l = (l.0, ground arith, tt)
Linked-relink h before stop stop' x (y ∷ xs) d l =
    (l.0, ground (arith, not_mem-last x y xs d.0), Linked-relink h x stop stop' y xs d.1 l.2)

-- Giving the first node another predecessor.
pub Linked-relink_first :
    (h : Heap) (before before' stop x : Ptr) (xs : List Ptr)
    → x ∉ xs
    → Linked h before stop (x ∷ xs)
    → Linked (update h x (node (first xs stop) before')) before' stop (x ∷ xs)
unfolding update
Linked-relink_first h before before' stop x xs out l =
    (l.0, ground arith, Linked-update h x stop x _ xs out l.2)

pub Apart-sym : (xs ys : List Ptr) → Apart xs ys → Apart ys xs
Apart-sym xs [] a = tt
Apart-sym xs (y ∷ ys) a = (Apart-head y xs ys a, Apart-sym xs ys (Apart-tail xs a))
  where
    Apart-tail : (zs : List Ptr) → Apart zs (y ∷ ys) → Apart zs ys
    Apart-tail [] a = tt
    Apart-tail (z ∷ zs) a = (a.0.1, Apart-tail zs a.1)

-- A change that is confined to `ys` leaves a segment apart from it alone.
pub Linked-Apart :
    (h g : Heap) (before stop : Ptr) (xs ys : List Ptr)
    → ((q : Ptr) → q ∉ ys → g q ≡ h q)
    → Apart xs ys
    → Linked h before stop xs
    → Linked g before stop xs
Linked-Apart h g before stop [] ys same a l = tt
Linked-Apart h g before stop (x ∷ xs) ys same a l =
    (l.0, same x a.0 ∙ l.1, Linked-Apart h g x stop xs ys same a.1 l.2)

pub not_mem-join : (p : Ptr) (xs ys : List Ptr) → p ∉ xs → p ∉ ys → p ∉ (xs ++ ys)
not_mem-join p [] ys a b = b
not_mem-join p (x ∷ xs) ys a b = (a.0, not_mem-join p xs ys a.1 b)
