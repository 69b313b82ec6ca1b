-- ===== src/Memory/MemoryRegion/Runs.antt =====
-- memory_region.cpp: sequences of operations on a region.
use hologine.Base.{
  ℕ, ◌+◌, ◌-◌, ◌*◌, ◌/◌, ◌%◌, ◌^◌, ◌≤◌, ◌<◌, ◌≡◌, refl, ◌≢◌, inl, inr, Bool, true, false, none,
  some, List, [], ◌∷◌, ◌++◌, ◌==◌, ◌&&◌, ltb, if◌then◌else◌, arith, Bool-cases,
}
use hologine.Math.Util.{multiple_of}
use hologine.Memory.MemoryRegion.{
  MemoryRegion, Call, decommit_pages, release_pages, get_page_size, get_reserved_size, page_count,
  grow, claim, reset,
}
use hologine.Memory.MemoryRegion.Pages.{
  Platform, within, apply_call, apply_calls, failures, IsHeld, IsValid, Leads, Leads-append,
  Leads-none, reserved_span, page_count_lem, reserved_lem,
}
use hologine.Memory.MemoryRegion.Grow.{page_bytes_lem, grow-IsValid}

claim-IsValid :
    (reserved : ℕ) (committed : Bool) (r : MemoryRegion) (p : Platform)
    → r.max_size < 2 ^ 63
    → IsValid r p
    → Leads r p (claim reserved committed r).1 (claim reserved committed r).2
unfolding claim apply_calls apply_call failures
claim-IsValid reserved committed r p l v =
    let e : (r.max_size + 2 ^ 64 - r.current_size) % 2 ^ 64 ≡ r.max_size - r.current_size =
      omega (arith, v.bounded) in
    elim (Bool-cases (r.max_size - r.current_size == 0)) [
      | inl y ↦ rw (e, y) (p, refl, v, refl, omega arith)
      | inr n ↦
          rw (e, n)
            (grow-IsValid (r.max_size - r.current_size) reserved committed r p (omega arith) v)
    ]

-- What a decommit of the first pages leaves.
decommit_pages-step :
    (n reserved : ℕ) (ok : Bool) (c : ℕ → Bool) (p : Platform)
    → n * 4096 ≤ reserved
    → reserved < 2 ^ 64
    → p.held ≡ some (reserved, c)
    → (d : ℕ → Bool) × (apply_calls (decommit_pages 0 n ok) p
        ≡ some (record p { held = some (reserved, d) }))
      × (failures (decommit_pages 0 n ok) ≡ 0)
unfolding apply_calls apply_call failures
decommit_pages-step n reserved ok c p h l held =
    let e = page_bytes_lem n (omega (arith, h, l)) in
    let d : ℕ → Bool = λ b. if ok && within 0 (n * 4096) b then false else c b in
    elim (Bool-cases ok) [
      | inl y ↦ (d, rw (e, y, held) (ground (arith, h)), rw y (ground arith))
      | inr z ↦ (d, rw (e, z, held) (ground (arith, h)), rw z (ground arith))
    ]

-- A region that has its reservation, behind the decommit of a reset.
abbrev emptied : MemoryRegion → MemoryRegion
emptied r = record r { current_size = 0 }

abbrev decommits : Bool → MemoryRegion → List Call
decommits decommitted r =
    if ltb 0 r.current_size
    then decommit_pages 0 (multiple_of r.current_size get_page_size) decommitted
    else []

-- With no size, nothing has to be committed.
emptied-IsHeld :
    (r : MemoryRegion) (p : Platform) (d : ℕ → Bool)
    → r.memory ≢ 0
    → 0 < r.max_size
    → p.held ≡ some (reserved_span r, d)
    → IsHeld (emptied r) p
unfolding page_count get_reserved_size
emptied-IsHeld r p d there sized e = record {
  there = there;
  sized = sized;
  committed = (d, e, λ b l. absurd (ground (arith, l)));
}

emptied-Leads :
    (r : MemoryRegion) (p q : Platform) (calls : List Call) (d : ℕ → Bool)
    → r.max_size ≤ 2 ^ 63
    → r.memory ≢ 0
    → 0 < r.max_size
    → q.held ≡ some (reserved_span r, d)
    → apply_calls calls p ≡ some q
    → failures calls ≡ 0
    → q.lost ≡ p.lost
    → (first : Leads r p calls (emptied r)) × IsHeld (emptied r) first.0
emptied-Leads r p q calls d s there sized e a f g =
    let empty = emptied-IsHeld r q d there sized e in
    (
      (
        q,
        a,
        record { bounded = omega arith; small = s; behind = inr empty },
        refl,
        omega (arith, f, g),
      ),
      empty,
    )

decommitted_count :
    (r : MemoryRegion)
    → ltb 0 r.current_size ≡ true
    → multiple_of r.current_size get_page_size ≡ page_count r.current_size
unfolding page_count
decommitted_count r h = ground (arith, h)

decommits-Leads :
    (decommitted : Bool) (r : MemoryRegion) (p : Platform)
    → r.current_size ≤ r.max_size
    → r.max_size ≤ 2 ^ 63
    → IsHeld r p
    → (first : Leads r p (decommits decommitted r) (emptied r)) × IsHeld (emptied r) first.0
unfolding apply_calls failures
decommits-Leads decommitted r p b s held =
    let (c, e, _) = held.committed in
    elim (Bool-cases (ltb 0 r.current_size)) [
      | inr n ↦ rw n (emptied-Leads r p p [] c s held.there held.sized e refl refl refl)
      | inl y ↦
          let n = page_count r.current_size in
          let count = reserved_lem r held.sized s in
          let pages = page_count_lem r.current_size (omega (arith, b, s)) in
          let (d, a, f) =
            decommit_pages-step n (reserved_span r) decommitted c p (omega (arith, count, pages, b))
              (omega (arith, count, s)) e in
          let q = record p { held = some (reserved_span r, d) } in
          rw (y, decommitted_count r y)
            (emptied-Leads r p q (decommit_pages 0 n decommitted) d s held.there held.sized refl a f
              refl)
    ]

release-Leads :
    (released : Bool) (r : MemoryRegion) (p : Platform)
    → r.max_size ≤ 2 ^ 63
    → IsHeld r p
    → Leads
        (emptied r)
        p
        (release_pages 0 (get_reserved_size r / get_page_size) released)
        (record r { current_size = 0; memory = 0 })
unfolding apply_calls apply_call failures
release-Leads released r p s held =
    let (c, e, _) = held.committed in
    let bytes =
      page_bytes_lem (get_reserved_size r / get_page_size)
        (omega (arith, reserved_lem r held.sized s, s)) in
    let empty : IsValid (record r { current_size = 0; memory = 0 })
        (record { held = none; lost = if released then p.lost else p.lost + 1 }) =
      record { bounded = omega arith; small = s; behind = inl (refl, refl, refl) } in
    (
      record { held = none; lost = if released then p.lost else p.lost + 1 },
      rw bytes (ground (arith, e)),
      empty,
      refl,
      ground arith,
    )

reset-null :
    (whole decommitted released : Bool) (r : MemoryRegion)
    → r.memory ≡ 0
    → reset whole decommitted released r ≡ ([], r)
unfolding reset
reset-null whole decommitted released r m = ground arith

reset-some :
    (decommitted released : Bool) (r : MemoryRegion)
    → r.memory ≢ 0
    → (reset false decommitted released r ≡ (decommits decommitted r, emptied r))
      × (reset true decommitted released r ≡ (
        decommits decommitted r ++ release_pages 0 (get_reserved_size r / get_page_size) released,
        record r { current_size = 0; memory = 0 },
      ))
unfolding reset
reset-some decommitted released r m = ground arith

reset-IsValid :
    (whole decommitted released : Bool) (r : MemoryRegion) (p : Platform)
    → IsValid r p
    → Leads r p (reset whole decommitted released r).0 (reset whole decommitted released r).1
unfolding get_reserved_size
reset-IsValid whole decommitted released r p v = elim v.behind [
  | inl (m, z, e) ↦ rw (reset-null whole decommitted released r m) (Leads-none r p v)
  | inr held ↦
      let (first, empty) = decommits-Leads decommitted r p v.bounded v.small held in
      let (kept, gone) = reset-some decommitted released r held.there in
      elim (Bool-cases whole) [
        | inr n ↦ rw (n, kept) first
        | inl y ↦
            rw (y, gone)
              (Leads-append r (emptied r) (record r { current_size = 0; memory = 0 }) p
                (decommits decommitted r)
                (release_pages 0 (get_reserved_size r / get_page_size) released) first
                (release-Leads released (emptied r) first.0 v.small empty))
      ]
]

-- The operations on a region, with what the platform answers.
pub data Operation : Type 0 where
  grow_by : ℕ → ℕ → Bool → Operation
  claim_all : ℕ → Bool → Operation
  reset_to : Bool → Bool → Bool → Operation

pub step : Operation → MemoryRegion → List Call × MemoryRegion
step (grow_by size reserved committed) r =
    ((grow size reserved committed r).1, (grow size reserved committed r).2)
step (claim_all reserved committed) r =
    ((claim reserved committed r).1, (claim reserved committed r).2)
step (reset_to whole decommitted released) r = reset whole decommitted released r

pub run_region : List Operation → MemoryRegion → List Call × MemoryRegion
unfolding step
run_region [] r = ([], r)
run_region (o ∷ os) r =
    ((step o r).0 ++ (run_region os (step o r).1).0, (run_region os (step o r).1).1)

-- No size is close to the end of the address space.
abbrev pub AreSmall : List Operation → Type 0
AreSmall [] = Unit
AreSmall (grow_by size reserved committed ∷ os) = (size < 2 ^ 63) × AreSmall os
AreSmall (_ ∷ os) = AreSmall os

step-IsValid :
    (o : Operation) (r : MemoryRegion) (p : Platform)
    → AreSmall (o ∷ [])
    → r.max_size < 2 ^ 63
    → IsValid r p
    → Leads r p (step o r).0 (step o r).1
unfolding step
step-IsValid (grow_by size reserved committed) r p (l, _) m v =
    grow-IsValid size reserved committed r p l v
step-IsValid (claim_all reserved committed) r p l m v = claim-IsValid reserved committed r p m v
step-IsValid (reset_to whole decommitted released) r p l m v =
    reset-IsValid whole decommitted released r p v

AreSmall-cons :
    (o : Operation) (os : List Operation) → AreSmall (o ∷ os) → AreSmall (o ∷ []) × AreSmall os
AreSmall-cons (grow_by size reserved committed) os (l, w) = ((l, tt), w)
AreSmall-cons (claim_all reserved committed) os w = (tt, w)
AreSmall-cons (reset_to whole decommitted released) os w = (tt, w)

-- Whatever the system answers, a region of fewer than 2 ^ 63 bytes that starts with the memory
-- behind it that its size asks for uses that memory by the rules through every sequence of calls of
-- `grow`, `claim` and `reset` in which `grow` asks for fewer than 2 ^ 63 bytes at a time: memory is
-- reserved once, and committed, decommitted and released inside of its reservation only. After the
-- calls the region either has no address, no size and no memory, or its reservation is the one that
-- its maximum asks for, and every page that its size asks for is committed; the size is at most the
-- maximum, and the maximum has not changed. Each release that the system refuses leaves one
-- reservation behind that nothing points to any more.
pub run_region-IsValid :
    (os : List Operation) (r : MemoryRegion) (p : Platform)
    → AreSmall os
    → r.max_size < 2 ^ 63
    → IsValid r p
    → Leads r p (run_region os r).0 (run_region os r).1
unfolding run_region
run_region-IsValid [] r p w m v = Leads-none r p v
run_region-IsValid (o ∷ os) r p w m v =
    let (l, rest) = AreSmall-cons o os w in
    let first = step-IsValid o r p l m v in
    let after = (step o r).1 in
    let second = run_region-IsValid os after first.0 rest (omega (arith, first.3, m)) first.2 in
    Leads-append r after (run_region os after).1 p (step o r).0 (run_region os after).0 first second
