-- ===== src/Memory/MemoryRegion/Grow.antt =====
-- memory_region.cpp: `grow` and the memory behind the region.
use hologine.Base.{
  ℕ, ◌+◌, ◌-◌, ◌*◌, ◌/◌, ◌%◌, ◌^◌, ◌≤◌, ◌<◌, ◌≡◌, refl, ◌≢◌, inl, inr, Bool, true, false, none,
  some, [], ◌∷◌, ◌++◌, ◌&&◌, if◌then◌else◌, arith, Bool-cases,
}
use hologine.Exception.Codes.{ExceptionCode}
use hologine.Memory.MemoryRegion.{
  MemoryRegion, push_exception, reserve_pages, commit_pages, page_bytes, get_page_size,
  get_reserved_size, page_count, grow_reserved, grow,
}
use hologine.Memory.MemoryRegion.Pages.{
  Platform, within, apply_call, apply_calls, failures, IsHeld, IsValid, Leads, Leads-append,
  Leads-none, reserved_span, page_count_lem, reserved_lem,
}
use native.Mathlib.Decide.{ℕ_discrete, dec_le}

pub page_bytes_lem : (n : ℕ) → n * 4096 < 2 ^ 64 → page_bytes n ≡ n * 4096
page_bytes_lem n h = omega (arith, h)

-- What a commit leaves.
commit_pages-step :
    (i n reserved : ℕ) (ok : Bool) (c : ℕ → Bool) (p : Platform)
    → i * 4096 + n * 4096 ≤ reserved
    → reserved < 2 ^ 64
    → p.held ≡ some (reserved, c)
    → (apply_calls (commit_pages i n ok) p
        ≡ some (record p {
          held = some (reserved, λ b. if ok && within (i * 4096) (n * 4096) b then true else c b);
        }))
      × (failures (commit_pages i n ok) ≡ 0)
unfolding apply_calls apply_call failures
commit_pages-step i n reserved ok c p h l held =
    let e = page_bytes_lem i (omega (arith, h, l)) in
    let f = page_bytes_lem n (omega (arith, h, l)) in
    elim (Bool-cases ok) [
      | inl y ↦ rw (e, f, y, held) (ground (arith, h), ground arith)
      | inr z ↦ rw (e, f, z, held) (ground (arith, h), ground arith)
    ]

module _ (size : ℕ) (committed : Bool) (r : MemoryRegion)
    (small : size + r.current_size < 2 ^ 64) where
  grow_reserved-full :
      r.max_size < size + r.current_size
      → grow_reserved size committed r ≡ (0, push_exception ExceptionCode.out_of_memory ∷ [], r)
  unfolding grow_reserved
  grow_reserved-full h =
      let e : (size + r.current_size) % 2 ^ 64 ≡ size + r.current_size = omega (arith, small) in
      ground (arith, e, h)

  grow_reserved-enough :
      size + r.current_size ≤ r.max_size
      → page_count (size + r.current_size) ≤ page_count r.current_size
      → grow_reserved size committed r
        ≡ (r.memory, [], record r { current_size = size + r.current_size })
  unfolding grow_reserved
  grow_reserved-enough h k =
      let e : (size + r.current_size) % 2 ^ 64 ≡ size + r.current_size = omega (arith, small) in
      ground (arith, e, h, k)

  grow_reserved-commit :
      size + r.current_size ≤ r.max_size
      → page_count r.current_size < page_count (size + r.current_size)
      → grow_reserved size committed r ≡ (
        if committed then r.memory else 0,
        commit_pages
            (page_count r.current_size)
            (page_count (size + r.current_size) - page_count r.current_size)
            committed,
        if committed then record r { current_size = size + r.current_size } else r,
      )
  unfolding grow_reserved
  grow_reserved-commit h k =
      let e : (size + r.current_size) % 2 ^ 64 ≡ size + r.current_size = omega (arith, small) in
      elim (Bool-cases committed) [
        | inl y ↦ rw y (ground (arith, e, h, k))
        | inr n ↦ rw n (ground (arith, e, h, k))
      ]

kept_true : (t : Bool) → (if true && t then true else true) ≡ true
kept_true true = refl
kept_true false = refl

-- The bytes behind a commit of the pages that a larger size asks for.
covered :
    (old new : ℕ) (c : ℕ → Bool)
    → old ≤ new
    → ((b : ℕ) → b < old * 4096 → c b ≡ true)
    → (b : ℕ) → b < new * 4096
    → (if true && within (old * 4096) ((new - old) * 4096) b then true else c b) ≡ true
covered old new c h before b l = elim (dec_le (old * 4096) b) [
  | yes y ↦
      let w : within (old * 4096) ((new - old) * 4096) b ≡ true = ground (arith, h, y, l) in
      rw w refl
  | no n ↦ rw (before b (omega (arith, n))) (kept_true (within (old * 4096) ((new - old) * 4096) b))
]

commit-room :
    (size : ℕ) (r : MemoryRegion)
    → size < 2 ^ 63
    → r.current_size ≤ r.max_size
    → r.max_size ≤ 2 ^ 63
    → 0 < r.max_size
    → size + r.current_size ≤ r.max_size
    → page_count r.current_size < page_count (size + r.current_size)
    → (page_count r.current_size * 4096
          + (page_count (size + r.current_size) - page_count r.current_size) * 4096
        ≤ reserved_span r)
      × (reserved_span r < 2 ^ 64)
commit-room size r l b s sized fits more =
    let e = reserved_lem r sized s in
    let f = page_count_lem (size + r.current_size) (omega arith) in
    (omega (arith, e, f, more, fits), omega (arith, e, s))

commit-Leads :
    (size : ℕ) (committed : Bool) (r : MemoryRegion) (p : Platform)
    → size < 2 ^ 63
    → r.current_size ≤ r.max_size
    → r.max_size ≤ 2 ^ 63
    → IsHeld r p
    → size + r.current_size ≤ r.max_size
    → page_count r.current_size < page_count (size + r.current_size)
    → Leads r p
        (commit_pages
          (page_count r.current_size)
          (page_count (size + r.current_size) - page_count r.current_size)
          committed)
        (if committed then record r { current_size = size + r.current_size } else r)
unfolding get_reserved_size
commit-Leads size true r p l b s held fits more =
    let (c, e, before) = held.committed in
    let old = page_count r.current_size in
    let new = page_count (size + r.current_size) in
    let (room, bound) = commit-room size r l b s held.sized fits more in
    let (step, f) = commit_pages-step old (new - old) (reserved_span r) true c p room bound e in
    (
      record p {
        held = some (
          reserved_span r,
          λ t. if true && within (old * 4096) ((new - old) * 4096) t then true else c t,
        );
      },
      step,
      record {
        bounded = fits;
        small = s;
        behind = inr (record {
          there = held.there;
          sized = held.sized;
          committed = (_, refl, covered old new c (omega (arith, more)) before);
        });
      },
      refl,
      omega (arith, f),
    )
commit-Leads size false r p l b s held fits more =
    let (c, e, before) = held.committed in
    let old = page_count r.current_size in
    let new = page_count (size + r.current_size) in
    let (room, bound) = commit-room size r l b s held.sized fits more in
    let (step, f) = commit_pages-step old (new - old) (reserved_span r) false c p room bound e in
    (
      record p {
        held = some (
          reserved_span r,
          λ t. if false && within (old * 4096) ((new - old) * 4096) t then true else c t,
        );
      },
      step,
      record {
        bounded = b;
        small = s;
        behind =
            inr (record { there = held.there; sized = held.sized; committed = (_, refl, before) });
      },
      refl,
      omega (arith, f),
    )

-- `grow` behind the reservation.
grow_reserved-Leads :
    (size : ℕ) (committed : Bool) (r : MemoryRegion) (p : Platform)
    → size < 2 ^ 63
    → r.current_size ≤ r.max_size
    → r.max_size ≤ 2 ^ 63
    → IsHeld r p
    → Leads r p (grow_reserved size committed r).1 (grow_reserved size committed r).2
unfolding apply_calls apply_call failures get_reserved_size
grow_reserved-Leads size committed r p l b s held =
    elim (dec_le (size + r.current_size) r.max_size) [
      | no full ↦
          rw (grow_reserved-full size committed r (omega arith) (omega (arith, full)))
            (p, refl, record { bounded = b; small = s; behind = inr held }, refl, omega arith)
      | yes fits ↦ elim (dec_le (page_count (size + r.current_size)) (page_count r.current_size)) [
        | yes enough ↦
            let (c, e, before) = held.committed in
            let grown : MemoryRegion = record r { current_size = size + r.current_size } in
            let held' : IsHeld grown p = record {
              there = held.there;
              sized = held.sized;
              committed = (c, e, λ b' l'. before b' (omega (arith, enough, l')));
            } in
            rw (grow_reserved-enough size committed r (omega arith) fits enough)
              (p, refl, record { bounded = fits; small = s; behind = inr held' }, refl, omega arith)
        | no more ↦
            rw (grow_reserved-commit size committed r (omega arith) fits (omega (arith, more)))
              (commit-Leads size committed r p l b s held fits (omega (arith, more)))
      ]
    ]

module _ (size reserved : ℕ) (committed : Bool) (r : MemoryRegion) where
  grow-held : r.memory ≢ 0 → grow size reserved committed r ≡ grow_reserved size committed r
  unfolding grow
  grow-held m = ground arith

  grow-empty : r.memory ≡ 0 → r.max_size ≡ 0 → grow size reserved committed r ≡ (0, [], r)
  unfolding grow
  grow-empty m z = ground arith

  grow-refused :
      r.memory ≡ 0
      → 0 < r.max_size
      → reserved ≡ 0
      → grow size reserved committed r
        ≡ (0, reserve_pages (get_reserved_size r / get_page_size) reserved, r)
  unfolding grow
  grow-refused m z h = ground arith

  grow-fresh :
      r.memory ≡ 0
      → 0 < r.max_size
      → reserved ≢ 0
      → grow size reserved committed r ≡ (
        (grow_reserved size committed (record r { memory = reserved })).0,
        reserve_pages (get_reserved_size r / get_page_size) reserved
            ++ (grow_reserved size committed (record r { memory = reserved })).1,
        (grow_reserved size committed (record r { memory = reserved })).2,
      )
  unfolding grow
  grow-fresh m z h = ground arith

  -- A reservation that is refused, and one that is granted.
  reserve-refused :
      (p : Platform)
      → IsValid r p
      → p.held ≡ none
      → reserved ≡ 0
      → Leads r p (reserve_pages (get_reserved_size r / get_page_size) reserved) r
  unfolding apply_calls apply_call failures
  reserve-refused p v e z = (p, rw z (ground (arith, e)), v, refl, rw z (ground arith))

  reserve-granted :
      (p : Platform)
      → p.held ≡ none
      → reserved ≢ 0
      → r.current_size ≡ 0
      → 0 < r.max_size
      → r.max_size ≤ 2 ^ 63
      → Leads r p
          (reserve_pages (get_reserved_size r / get_page_size) reserved)
          (record r { memory = reserved })
  unfolding apply_calls apply_call failures get_reserved_size page_count
  reserve-granted p e n z m s =
      let bound : reserved_span r < 2 ^ 64 = omega (arith, reserved_lem r m s, s) in
      let bytes = page_bytes_lem (get_reserved_size r / get_page_size) bound in
      (
        record p { held = some (reserved_span r, λ b. false) },
        rw bytes (ground (arith, e, n)),
        record {
          bounded = omega (arith, z);
          small = s;
          behind = inr (record {
            there = n;
            sized = m;
            committed = (λ b. false, refl, λ b l. absurd (ground (arith, z, l)));
          });
        },
        refl,
        ground (arith, n),
      )

pub grow-IsValid :
    (size reserved : ℕ) (committed : Bool) (r : MemoryRegion) (p : Platform)
    → size < 2 ^ 63
    → IsValid r p
    → Leads r p (grow size reserved committed r).1 (grow size reserved committed r).2
grow-IsValid size reserved committed r p l v = elim v.behind [
  | inr held ↦
      rw (grow-held size reserved committed r held.there)
        (grow_reserved-Leads size committed r p l v.bounded v.small held)
  | inl (m, z, e) ↦ elim (ℕ_discrete r.max_size 0) [
    | yes y ↦ rw (grow-empty size reserved committed r m y) (Leads-none r p v)
    | no n ↦ elim (ℕ_discrete reserved 0) [
      | yes y ↦
          rw (grow-refused size reserved committed r m (omega arith) y)
            (reserve-refused size reserved committed r p v e y)
      | no f ↦
          let first = reserve-granted size reserved committed r p e f z (omega arith) v.small in
          let fresh : MemoryRegion = record r { memory = reserved } in
          let second : Leads fresh first.0 (grow_reserved size committed fresh).1
              (grow_reserved size committed fresh).2 =
            elim first.2.behind [
              | inl (null, _, _) ↦ absurd (f null)
              | inr held ↦
                  grow_reserved-Leads size committed fresh first.0 l (omega (arith, z)) v.small held
            ] in
          rw (grow-fresh size reserved committed r m (omega arith) f) (
            Leads-append r fresh (grow_reserved size committed fresh).2 p
              (reserve_pages (get_reserved_size r / get_page_size) reserved)
              (grow_reserved size committed fresh).1 first second)
    ]
  ]
]
