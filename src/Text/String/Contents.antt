-- ===== src/Text/String/Contents.antt =====
-- string.cpp: the bytes of a string, of its substrings and duplicates, and their comparison.
use hologine.Base.{
  ℕ, zero, suc, ◌+◌, ◌^◌, ◌≡◌, ◌∙◌, refl, sym, ap, ◌≤◌, ◌<◌, ◌↔◌, Bool, true, false, not, ◌&&◌,
  Option, some, List, [], ◌∷◌, length, take, drop, arith, ◌==◌, ◌>>=◌, >>=-eq-some, length-take,
  length-drop,
}
use native.Mathlib.Decide.{ℕ_discrete}
use hologine.Text.String.{String, characters_of, range, equal, equal_data, memcmp, not_equal}
use hologine.Text.String.Buffers.{Heap}

-- The bytes of a string, from its offset on; `none` where they may not be read.
abbrev pub contents : String → Heap → Option (List ℕ)
contents s h = characters_of s h >>= h.memory >>= range s.offset s.length

cons-injective : (x y : ℕ) (xs ys : List ℕ) → x ∷ xs ≡ y ∷ ys → (x ≡ y) × (xs ≡ ys)
cons-injective x y xs ys e = (cc, cc)

memcmp_lem :
    (n : ℕ) (xs ys : List ℕ)
    → n ≤ length xs
    → n ≤ length ys
    → (b : Bool) × (memcmp n xs ys ≡ some b) × ((b ≡ true) ↔ (take n xs ≡ take n ys))
unfolding memcmp
memcmp_lem zero xs ys h k = (true, refl, (λ _. refl, λ _. refl))
memcmp_lem (suc n) [] ys h k = absurd (omega arith)
memcmp_lem (suc n) (x ∷ xs) [] h k = absurd (omega arith)
memcmp_lem (suc n) (x ∷ xs) (y ∷ ys) h k =
    let (b, e, (to, from)) = memcmp_lem n xs ys (omega arith) (omega arith) in
    (
      x == y && b,
      ground (arith, e),
      (
        λ z. (let same = to (ground (arith, z)) in let head : x ≡ y = ground (arith, z) in cc),
        λ z.
            (let (head, tail) = cons-injective x y (take n xs) (take n ys) z in
              let last = from tail in ground (arith, head, last)),
      ),
    )

-- Where the bytes of a string come from.
pub contents-some :
    (s : String) (h : Heap) (xs : List ℕ)
    → contents s h ≡ some xs
    → (p : ℕ) × (bytes : List ℕ) × (characters_of s h ≡ some p)
      × (h.memory p ≡ some bytes)
      × (s.offset + s.length ≤ length bytes)
      × (xs ≡ take s.length (drop s.offset bytes))
contents-some s h xs e =
    let (bytes, f, g) = >>=-eq-some (characters_of s h >>= h.memory) (range s.offset s.length) e in
    let (p, k, l) = >>=-eq-some (characters_of s h) h.memory f in
    (p, bytes, k, l, ground (arith, g), ground (arith, g))

pub length-contents :
    (s : String) (h : Heap) (xs : List ℕ) → contents s h ≡ some xs → length xs ≡ s.length
length-contents s h xs e =
    let (p, bytes, _, _, fits, from) = contents-some s h xs e in
    rw from
      (omega (arith, fits, length-take s.length (drop s.offset bytes), length-drop s.offset bytes))

equal_data_lem :
    (n : ℕ) (h : Heap) (p q : ℕ) (xs ys : List ℕ)
    → h.memory p ≡ some xs
    → h.memory q ≡ some ys
    → n ≤ length xs
    → n ≤ length ys
    → (b : Bool) × (equal_data n h p q ≡ some b) × ((b ≡ true) ↔ (take n xs ≡ take n ys))
equal_data_lem n h p q xs ys e f k l = elim (ℕ_discrete n 0) [
  | yes y ↦ (true, ground (arith, y), (λ _. rw y refl, λ _. refl))
  | no y ↦ elim (ℕ_discrete p q) [
    | yes z ↦
        let same : xs ≡ ys = ground (arith, e, f, z) in
        (true, ground (arith, z), (λ _. ap (take n) same, λ _. refl))
    | no z ↦ let (b, g, w) = memcmp_lem n xs ys k l in (b, ground (arith, y, z, e, f, g), w)
  ]
]

-- The comparison of two strings that start at their first character tells whether their bytes are
-- the same, `!=` whether they are not.
pub equal_lem :
    (s t : String) (h : Heap) (xs ys : List ℕ)
    → s.offset ≡ 0
    → t.offset ≡ 0
    → s.length < 2 ^ 64
    → t.length < 2 ^ 64
    → contents s h ≡ some xs
    → contents t h ≡ some ys
    → (b : Bool) × (equal s t h ≡ some b)
      × (not_equal s t h ≡ some (not b))
      × ((b ≡ true) ↔ (xs ≡ ys))
unfolding equal not_equal
equal_lem s t h xs ys o r small small' e f =
    let (p, us, at, there, fits, from) = contents-some s h xs e in
    let (q, vs, at', there', fits', from') = contents-some t h ys f in
    elim (ℕ_discrete s.length t.length) [
      | no n ↦ (
        false,
        ground (arith, o, r, n, small, small'),
        ground (arith, o, r, n, small, small'),
        (
          λ z. cc,
          λ z.
              absurd (
                n (omega (arith, length-contents s h xs e, length-contents t h ys f, ap length z))),
        ),
      )
      | yes y ↦
          let whole : xs ≡ take s.length us = rw (from, o) refl in
          let whole' : ys ≡ take s.length vs = rw (from', r, y) refl in
          let (b, g, (to, back)) =
            equal_data_lem s.length h p q us vs there there' (omega arith) (omega arith) in
          (
            b,
            ground (arith, o, r, y, small, small', at, at', g),
            ground (arith, o, r, y, small, small', at, at', g),
            (λ z. whole ∙ to z ∙ sym whole', λ z. back (sym whole ∙ z ∙ whole')),
          )
    ]
