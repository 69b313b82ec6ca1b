-- ===== src/Text/String/Owners.antt =====
-- string.cpp: the references that strings hold, through copies, assignments and destructions.
use mathlib.Core.Path.{fun_ext}
use hologine.Base.{
  ℕ, zero, suc, ◌+◌, ◌^◌, ◌≡◌, refl, ◌≢◌, ◌≤◌, ◌<◌, ◌⊎◌, inl, inr, Option, none, some, List, [],
  ◌∷◌, ◌++◌, length, set, get_elem?, arith, ◌==◌, if◌then◌else◌,
}
use hologine.Text.String.{String, storage_managed, storage_unmanaged, string_copy, destroy, assign}
use hologine.Text.String.Buffers.{Heap, dereference_buffer}
use hologine.Text.String.Counts.{one_at, IsBalanced, reference_buffer-IsBalanced}
use hologine.Text.String.Release.{dereference_buffer-IsBalanced}

-- The references that a string holds to the buffer at `q`.
abbrev pub refers : ℕ → String → ℕ
refers q s = if s.storage_mode == storage_managed then one_at s.pointer q else 0

-- A managed string has a buffer, as every constructor but that of a range ensures.
abbrev pub HasMode : String → Type 0
HasMode s =
    ((s.storage_mode ≡ storage_managed) × (s.pointer ≢ 0)) ⊎ (s.storage_mode ≡ storage_unmanaged)

pub same-IsBalanced :
    (h : Heap) (c c' : ℕ → ℕ) → ((q : ℕ) → c' q ≡ c q) → IsBalanced h c → IsBalanced h c'
same-IsBalanced h c c' e w = rw (fun_ext e) w

pub string_copy-IsBalanced :
    (s : String) (h : Heap) (c c' : ℕ → ℕ)
    → HasMode s
    → IsBalanced h c
    → ((q : ℕ) → refers q s ≤ c q)
    → c s.pointer + 1 < 2 ^ 64
    → ((q : ℕ) → c' q ≡ c q + refers q s)
    → (h' : Heap) × (string_copy s h ≡ some (s, h')) × IsBalanced h' c' × (h'.memory ≡ h.memory)
unfolding string_copy
string_copy-IsBalanced s h c c' mode w held fits more = elim mode [
  | inl (m, n) ↦
      let mine = held s.pointer in
      let (h', e, v, k) =
        reference_buffer-IsBalanced h c c' s.pointer w (ground (arith, m, mine)) fits
          (λ q. (let z = more q in ground (arith, m, z))) in
      (h', ground (arith, m, n, e), v, k)
  | inr m ↦ (
    h,
    ground (arith, m),
    same-IsBalanced h c c' (λ q. (let z = more q in ground (arith, m, z))) w,
    refl,
  )
]

pub destroy-IsBalanced :
    (s : String) (h : Heap) (c c' : ℕ → ℕ)
    → HasMode s
    → IsBalanced h c
    → ((q : ℕ) → c' q + refers q s ≡ c q)
    → (h' : Heap) × (destroy s h ≡ some h') × IsBalanced h' c'
unfolding destroy
destroy-IsBalanced s h c c' mode w less = elim mode [
  | inl (m, n) ↦
      let (h', e, v) =
        dereference_buffer-IsBalanced h c c' s.pointer w
          (λ q. (let z = less q in ground (arith, m, z))) in
      (h', ground (arith, m, n, e), v)
  | inr m ↦ (
    h,
    ground (arith, m),
    same-IsBalanced h c c' (λ q. (let z = less q in ground (arith, m, z))) w,
  )
]

-- The old reference goes before the new one comes. `d` counts between the two: the assigned string
-- still holds its reference there, so its buffer survives even if both are one.
pub assign-IsBalanced :
    (this other : String) (h : Heap) (c d c' : ℕ → ℕ)
    → HasMode this
    → HasMode other
    → IsBalanced h c
    → ((q : ℕ) → d q + refers q this ≡ c q)
    → ((q : ℕ) → refers q other ≤ d q)
    → d other.pointer + 1 < 2 ^ 64
    → ((q : ℕ) → c' q ≡ d q + refers q other)
    → (h' : Heap) × (assign this other h ≡ some (other, h')) × IsBalanced h' c'
unfolding assign
assign-IsBalanced this other h c d c' mode mode' w less held fits more =
    let (h₁, e, v) = between in
    elim mode' [
      | inl (m, n) ↦
          let mine = held other.pointer in
          let (h', f, u, k) =
            reference_buffer-IsBalanced h₁ d c' other.pointer v (ground (arith, m, mine)) fits
              (λ q. (let z = more q in ground (arith, m, z))) in
          (h', ground (arith, m, e, f), u)
      | inr m ↦ (
        h₁,
        ground (arith, m, e),
        same-IsBalanced h₁ d c' (λ q. (let z = more q in ground (arith, m, z))) v,
      )
    ]
  where
    between :
        (h₁ : Heap) × ((if this.storage_mode == storage_managed
            then dereference_buffer this.pointer h
            else some h)
          ≡ some h₁)
        × IsBalanced h₁ d
    between = elim mode [
      | inl (m, n) ↦
          let (h₁, e, v) =
            dereference_buffer-IsBalanced h c d this.pointer w
              (λ q. (let z = less q in ground (arith, m, z))) in
          (h₁, ground (arith, m, e), v)
      | inr m ↦ (
        h,
        ground (arith, m),
        same-IsBalanced h c d (λ q. (let z = less q in ground (arith, m, z))) w,
      )
    ]

abbrev pub held : ℕ → Option String → ℕ
held q none = 0
held q (some s) = refers q s

-- The references of a list of strings, `none` for one that is destroyed.
abbrev pub references : ℕ → List (Option String) → ℕ
references q [] = 0
references q (s ∷ ss) = held q s + references q ss

pub references-append :
    (q : ℕ) (ss : List (Option String)) (s : String)
    → references q (ss ++ (some s ∷ [])) ≡ references q ss + refers q s
references-append q [] s = omega arith
references-append q (x ∷ ss) s = omega (arith, references-append q ss s)

pub references-set :
    (q : ℕ) (ss : List (Option String)) (i : ℕ) (old new : Option String)
    → get_elem? ss i ≡ some old
    → references q (set ss i new) + held q old ≡ references q ss + held q new
references-set q [] i old new h = absurd (ground (arith, h))
references-set q (x ∷ ss) zero old new h = let e : x ≡ old = cc in rw e (omega arith)
references-set q (x ∷ ss) (suc i) old new h = omega (arith, references-set q ss i old new h)

held-le : (q : ℕ) (s : Option String) → held q s ≤ 1
held-le q none = omega arith
held-le q (some s) = ground arith

pub references-le : (q : ℕ) (ss : List (Option String)) → references q ss ≤ length ss
references-le q [] = omega arith
references-le q (s ∷ ss) = omega (arith, references-le q ss, held-le q s)

pub references-get :
    (q : ℕ) (ss : List (Option String)) (i : ℕ) (s : String)
    → get_elem? ss i ≡ some (some s)
    → refers q s ≤ references q ss
references-get q ss i s h = omega (arith, references-set q ss i (some s) none h)
