-- ===== src/Text/String/Release.antt =====
-- string.cpp and string.hpp: buffers that are given up, and buffers that are made.
use hologine.Base.{ℕ, ◌+◌, ◌-◌, ◌≡◌, ◌≢◌, ◌<◌, none, some, List, length, arith}
use native.Mathlib.Decide.{ℕ_discrete}
use hologine.Text.String.Buffers.{StringBuffer, Heap, update, dereference_buffer, construct_buffer}
use hologine.Text.String.Counts.{one_at, IsBalanced, referred, recount-IsBalanced}

-- A buffer without references goes, with its characters.
remove-IsBalanced :
    (h : Heap) (c c' : ℕ → ℕ) (p : ℕ) (a : StringBuffer)
    → IsBalanced h c
    → h.buffers p ≡ some a
    → c' p ≡ 0
    → ((q : ℕ) → q ≢ p → c' q ≡ c q)
    → IsBalanced
        (record { buffers = update h.buffers p none; memory = update h.memory a.characters none })
        c'
remove-IsBalanced h c c' p a w e gone same = record {
  counted = λ q. elim (ℕ_discrete q p) [
    | yes y ↦ ground (arith, y, gone)
    | no y ↦ let k = w.counted q in let z = same q y in ground (arith, y, k, z)
  ];
  backed = λ q b f. elim (ℕ_discrete q p) [
    | yes y ↦ absurd (ground (arith, y, f))
    | no y ↦
        let g : h.buffers q ≡ some b = ground (arith, y, f) in
        let (bytes, there, l) = w.backed q b g in
        let own : b.characters ≢ a.characters = λ z. y (w.apart q p b a g e z) in
        (bytes, ground (arith, there, own), l)
  ];
  apart = λ q r b d f g z. elim (ℕ_discrete q p) [
    | yes y ↦ absurd (ground (arith, y, f))
    | no y ↦ elim (ℕ_discrete r p) [
      | yes x ↦ absurd (ground (arith, x, g))
      | no x ↦ w.apart q r b d (ground (arith, y, f)) (ground (arith, x, g)) z
    ]
  ];
}

-- One reference less to a buffer that is referred to.
pub dereference_buffer-IsBalanced :
    (h : Heap) (c c' : ℕ → ℕ) (p : ℕ)
    → IsBalanced h c
    → ((q : ℕ) → c' q + one_at p q ≡ c q)
    → (h' : Heap) × (dereference_buffer p h ≡ some h') × IsBalanced h' c'
unfolding dereference_buffer
dereference_buffer-IsBalanced h c c' p w less =
    let here = less p in
    let pos : 0 < c p = ground (arith, here) in
    let rest : (q : ℕ) → q ≢ p → c' q ≡ c q = λ q n. (let z = less q in ground (arith, n, z)) in
    let (b, e, k) = referred w p pos in
    elim (ℕ_discrete (c p) 1) [
      | yes y ↦ (
        record { buffers = update h.buffers p none; memory = update h.memory b.characters none },
        ground (arith, e, k, y),
        remove-IsBalanced h c c' p b w e (ground (arith, here, y)) rest,
      )
      | no y ↦ (
        record h { buffers = update h.buffers p (some (record b { reference_count = c p - 1 })) },
        ground (arith, e, k, y, pos),
        recount-IsBalanced h c c' p (c p - 1) b w e (ground (arith, here)) (ground (arith, y, pos))
            rest,
      )
    ]

abbrev pub made : ℕ → ℕ → List ℕ → StringBuffer
made block allocator range = record {
  characters = block;
  length = length range;
  reference_count = 1;
  allocator = allocator;
}

-- A new buffer, on memory that was free, has one reference.
pub construct_buffer-IsBalanced :
    (object block allocator : ℕ) (range : List ℕ) (h : Heap) (c c' : ℕ → ℕ)
    → object ≢ 0
    → block ≢ 0
    → h.buffers object ≡ none
    → h.memory block ≡ none
    → IsBalanced h c
    → ((q : ℕ) → c' q ≡ c q + one_at object q)
    → (h' : Heap) × (construct_buffer object block allocator range h ≡ (object, h'))
      × IsBalanced h' c'
      × (h'.buffers object ≡ some (made block allocator range))
unfolding construct_buffer
construct_buffer-IsBalanced object block allocator range h c c' o b free unused w more =
    let m = made block allocator range in
    let own : (q : ℕ) (a : StringBuffer) → h.buffers q ≡ some a → a.characters ≢ block = λ q a f z.
      (let (bytes, there, l) = w.backed q a f in absurd (ground (arith, there, z, unused))) in
    (
      record {
        buffers = update h.buffers object (some m);
        memory = update h.memory block (some range);
      },
      ground (arith, o, b),
      record {
        counted = λ q. elim (ℕ_discrete q object) [
          | yes y ↦ let k = w.counted object in let z = more object in ground (arith, y, k, free, z)
          | no y ↦ let k = w.counted q in let z = more q in ground (arith, y, k, z)
        ];
        backed = λ q a f. elim (ℕ_discrete q object) [
          | yes y ↦ (range, ground (arith, y, f), ground (arith, y, f))
          | no y ↦
              let g : h.buffers q ≡ some a = ground (arith, y, f) in
              let (bytes, there, l) = w.backed q a g in
              let n = own q a g in (bytes, ground (arith, there, n), l)
        ];
        apart = λ q r a d f g z. elim (ℕ_discrete q object) [
          | yes y ↦ elim (ℕ_discrete r object) [
            | yes x ↦ omega (arith, x, y)
            | no x ↦ absurd (own r d (ground (arith, x, g)) (ground (arith, y, f, z)))
          ]
          | no y ↦ elim (ℕ_discrete r object) [
            | yes x ↦ absurd (own q a (ground (arith, y, f)) (ground (arith, x, g, z)))
            | no x ↦ w.apart q r a d (ground (arith, y, f)) (ground (arith, x, g)) z
          ]
        ];
      },
      ground arith,
    )
