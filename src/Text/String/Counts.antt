-- ===== src/Text/String/Counts.antt =====
-- string.cpp: the count of a buffer against the references that are held to it.
use hologine.Base.{
  ℕ, ◌+◌, ◌^◌, ◌≡◌, refl, ◌≢◌, ◌<◌, inl, inr, Option, none, some, List, length, arith, ◌==◌,
  if◌then◌else◌, Option-cases,
}
use native.Mathlib.Decide.{ℕ_discrete}
use hologine.Text.String.Buffers.{StringBuffer, Heap, update, reference_buffer}

-- One reference to the buffer at `p`, as seen from `q`.
abbrev pub one_at : ℕ → ℕ → ℕ
one_at p q = if q == p then 1 else 0

-- A buffer that exists has `n` references, at least one; one that does not exist has none.
abbrev pub Balanced : Option StringBuffer → ℕ → Type 0
Balanced none n = n ≡ 0
Balanced (some b) n = (b.reference_count ≡ n) × (0 < n)

-- `c` counts the references to each buffer. The characters of a buffer may be read, and
-- are its own.
pub record IsBalanced (h : Heap) (c : ℕ → ℕ) : Type 0 where
  pub counted : (p : ℕ) → Balanced (h.buffers p) (c p)
  pub backed :
      (p : ℕ) (b : StringBuffer)
      → h.buffers p ≡ some b
      → (bytes : List ℕ) × (h.memory b.characters ≡ some bytes) × (length bytes ≡ b.length)
  pub apart :
      (p q : ℕ) (a b : StringBuffer)
      → h.buffers p ≡ some a
      → h.buffers q ≡ some b
      → a.characters ≡ b.characters
      → p ≡ q

-- A buffer that is referred to exists.
pub referred :
    {h : Heap} {c : ℕ → ℕ} (w : IsBalanced h c) (p : ℕ)
    → 0 < c p
    → (b : StringBuffer) × (h.buffers p ≡ some b) × (b.reference_count ≡ c p)
referred {h} {c} w p pos = elim (Option-cases (h.buffers p)) [
  | inl e ↦ let k = w.counted p in absurd (ground (arith, e, k))
  | inr (b, e) ↦ let k = w.counted p in (b, e, ground (arith, e, k))
]

-- Another count in a buffer leaves its characters where they are.
recounted :
    (h : Heap) (p n : ℕ) (a : StringBuffer)
    → h.buffers p ≡ some a
    → (q : ℕ) (b : StringBuffer)
    → update h.buffers p (some (record a { reference_count = n })) q ≡ some b
    → (d : StringBuffer) × (h.buffers q ≡ some d)
      × (d.characters ≡ b.characters)
      × (d.length ≡ b.length)
recounted h p n a e q b f = elim (ℕ_discrete q p) [
  | yes y ↦ (a, ground (arith, y, e), ground (arith, y, f), ground (arith, y, f))
  | no y ↦ (b, ground (arith, y, f), refl, refl)
]

pub recount-IsBalanced :
    (h : Heap) (c c' : ℕ → ℕ) (p n : ℕ) (a : StringBuffer)
    → IsBalanced h c
    → h.buffers p ≡ some a
    → n ≡ c' p
    → 0 < n
    → ((q : ℕ) → q ≢ p → c' q ≡ c q)
    → IsBalanced
        (record h { buffers = update h.buffers p (some (record a { reference_count = n })) })
        c'
recount-IsBalanced h c c' p n a w e m pos same = record {
  counted = λ q. elim (ℕ_discrete q p) [
    | yes y ↦ ground (arith, y, m, pos)
    | no y ↦ let k = w.counted q in let z = same q y in ground (arith, y, k, z)
  ];
  backed = λ q b f.
      let (d, g, at, size) = recounted h p n a e q b f in
      let (bytes, there, l) = w.backed q d g in
      (bytes, ground (arith, there, at), ground (arith, l, size));
  apart = λ q r b d f g z.
      let (b', f', at, _) = recounted h p n a e q b f in
      let (d', g', at', _) = recounted h p n a e r d g in
      w.apart q r b' d' f' g' (ground (arith, at, at', z));
}

-- One more reference to a buffer that is referred to.
pub reference_buffer-IsBalanced :
    (h : Heap) (c c' : ℕ → ℕ) (p : ℕ)
    → IsBalanced h c
    → 0 < c p
    → c p + 1 < 2 ^ 64
    → ((q : ℕ) → c' q ≡ c q + one_at p q)
    → (h' : Heap) × (reference_buffer p h ≡ some h') × IsBalanced h' c' × (h'.memory ≡ h.memory)
unfolding reference_buffer
reference_buffer-IsBalanced h c c' p w pos fits more =
    let (b, e, k) = referred w p pos in
    let here = more p in
    (
      record h { buffers = update h.buffers p (some (record b { reference_count = c p + 1 })) },
      ground (arith, e, k),
      recount-IsBalanced h c c' p (c p + 1) b w e (ground (arith, here)) (omega arith)
          (λ q n. let z = more q in ground (arith, n, z)),
      refl,
    )
