-- ===== src/Memory/MemoryRegion/Pages.antt =====
-- memory_region.cpp: the memory of the system behind a region.
use hologine.Base.{
  ℕ, ◌+◌, ◌*◌, ◌/◌, ◌^◌, ◌≤◌, ◌<◌, ◌≡◌, ◌≢◌, ◌⊎◌, refl, ◌∙◌, inl, inr, Bool, true, false, Option,
  none, some, List, [], ◌∷◌, ◌++◌, leb, ltb, ◌==◌, ◌&&◌, if◌then◌else◌, ◌>>=◌, arith, Bool-cases,
  Option-cases,
}
use hologine.Math.Util.Rounding.{round_up_lem, multiple_of_lem}
use hologine.Memory.MemoryRegion.{
  MemoryRegion, Call, reserve, commit, decommit, release, push_exception, get_page_size,
  get_reserved_size, page_count,
}

-- What the system holds for a region: the bytes that are reserved, with the offsets of those that are
-- committed, and how many reservations it holds besides, to which nothing points any more.
pub record Platform : Type 0 where
  pub held : Option (ℕ × (ℕ → Bool))
  pub lost : ℕ

-- The offsets from `offset` on, as many as there are bytes.
abbrev pub within : ℕ → ℕ → ℕ → Bool
within offset bytes b = leb offset b && ltb b (offset + bytes)

-- What a call makes of it; `none` is a call that breaks a rule: memory is reserved once, and
-- committed, decommitted or released inside of its reservation. A release that fails leaves the
-- reservation, but it was the last use of its address.
unfoldable pub apply_call : Call → Platform → Option Platform
apply_call (reserve bytes answer) p = elim p.held [
  | none ↦ if answer == 0 then some p else some (record p { held = some (bytes, λ b. false) })
  | some _ ↦ none
]
apply_call (commit offset bytes ok) p = elim p.held [
  | none ↦ none
  | some (reserved, committed) ↦
      if leb (offset + bytes) reserved
      then some (record p {
        held = some (reserved, λ b. if ok && within offset bytes b then true else committed b);
      })
      else none
]
apply_call (decommit offset bytes ok) p = elim p.held [
  | none ↦ none
  | some (reserved, committed) ↦
      if leb (offset + bytes) reserved
      then some (record p {
        held = some (reserved, λ b. if ok && within offset bytes b then false else committed b);
      })
      else none
]
apply_call (release offset bytes ok) p = elim p.held [
  | none ↦ none
  | some (reserved, committed) ↦
      if offset == 0 && bytes == reserved
      then some (record { held = none; lost = if ok then p.lost else p.lost + 1 })
      else none
]
apply_call (push_exception code) p = some p

unfoldable pub apply_calls : List Call → Platform → Option Platform
apply_calls [] p = some p
apply_calls (call ∷ calls) p = do after ← apply_call call p; apply_calls calls after

-- The releases that fail.
unfoldable pub failures : List Call → ℕ
failures [] = 0
failures (release offset bytes false ∷ calls) = 1 + failures calls
failures (_ ∷ calls) = failures calls

-- The bytes of the pages that a number of bytes asks for.
abbrev pub span : ℕ → ℕ
span size = page_count size * get_page_size

abbrev pub reserved_span : MemoryRegion → ℕ
reserved_span r = get_reserved_size r / get_page_size * get_page_size

-- A region that has its reservation, in which all pages of its size are committed.
pub record IsHeld (r : MemoryRegion) (p : Platform) : Type 0 where
  pub there : r.memory ≢ 0
  pub sized : 0 < r.max_size
  pub committed :
      (c : ℕ → Bool) × (p.held ≡ some (reserved_span r, c))
      × ((b : ℕ) → b < span r.current_size → c b ≡ true)

-- A region and the memory behind it.
pub record IsValid (r : MemoryRegion) (p : Platform) : Type 0 where
  pub bounded : r.current_size ≤ r.max_size
  pub small : r.max_size ≤ 2 ^ 63
  pub behind : ((r.memory ≡ 0) × (r.current_size ≡ 0) × (p.held ≡ none)) ⊎ IsHeld r p

-- A number of pages that suffices for a size.
pub page_count_lem : (size : ℕ) → size ≤ 2 ^ 63 → page_count size ≡ (size + 0xfff) / 0x1000
unfolding page_count
page_count_lem size h = elim (Bool-cases (size == 0)) [
  | inl z ↦ ground (arith, z)
  | inr n ↦
      ground (arith, n, multiple_of_lem size 0x1000 (ground (arith, n)) (omega arith) (omega arith))
]

pub reserved_lem :
    (r : MemoryRegion)
    → 0 < r.max_size
    → r.max_size ≤ 2 ^ 63
    → get_reserved_size r / get_page_size ≡ (r.max_size + 0xffff) / 0x10000 * 16
unfolding get_reserved_size
reserved_lem r p h = ground (arith, round_up_lem r.max_size 0x10000 p (omega arith) (omega arith))

pub apply_calls-append :
    (xs ys : List Call) (p q : Platform)
    → apply_calls xs p ≡ some q
    → apply_calls (xs ++ ys) p ≡ apply_calls ys q
unfolding apply_calls
apply_calls-append [] ys p q h = ground (arith, h)
apply_calls-append (x ∷ xs) ys p q h = elim (Option-cases (apply_call x p)) [
  | inl n ↦ absurd (ground (arith, h, n))
  | inr (a, e) ↦ rw e (apply_calls-append xs ys a q (ground (arith, h, e)))
]

pub failures-append : (xs ys : List Call) → failures (xs ++ ys) ≡ failures xs + failures ys
unfolding failures
failures-append [] ys = omega arith
failures-append (reserve bytes answer ∷ xs) ys = failures-append xs ys
failures-append (commit offset bytes ok ∷ xs) ys = failures-append xs ys
failures-append (decommit offset bytes ok ∷ xs) ys = failures-append xs ys
failures-append (release offset bytes true ∷ xs) ys = failures-append xs ys
failures-append (release offset bytes false ∷ xs) ys = omega (arith, failures-append xs ys)
failures-append (push_exception code ∷ xs) ys = failures-append xs ys

-- The calls of an operation lead from the memory behind the region to such memory, and lose one
-- reservation for each release that fails.
abbrev pub Leads : MemoryRegion → Platform → List Call → MemoryRegion → Type 0
Leads r p calls after =
    (q : Platform) × (apply_calls calls p ≡ some q)
    × IsValid after q
    × (after.max_size ≡ r.max_size)
    × (q.lost ≡ p.lost + failures calls)

pub Leads-append :
    (r m l : MemoryRegion) (p : Platform) (xs ys : List Call)
    → (first : Leads r p xs m) → Leads m first.0 ys l
    → Leads r p (xs ++ ys) l
Leads-append r m l p xs ys (q, a, v, e, f) (o, b, w, g, h) =
    (o, apply_calls-append xs ys _ q a ∙ b, w, g ∙ e, omega (arith, f, h, failures-append xs ys))

-- No call, and a call of the system that a failure reports by an exception.
pub Leads-none : (r : MemoryRegion) (p : Platform) → IsValid r p → Leads r p [] r
unfolding apply_calls failures
Leads-none r p v = (p, refl, v, refl, omega arith)
