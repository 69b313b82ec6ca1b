-- ===== src/Math/Bits/Swap.antt =====
-- bits.hpp: `swap_bytes` reverses the bytes of a word.
use hologine.Base.{ℕ, ◌+◌, ◌*◌, ◌/◌, ◌%◌, ◌^◌, ◌<◌, ◌≡◌, [], ◌∷◌, arith}
use hologine.Base.Bits.{and_mask, and_field, or_fields, or_fields_comm, or_between}
use hologine.Base.Bytes.{word}
use hologine.Math.Bits.{swap_bytes16, swap_bytes32, swap_bytes64}

pub swap_bytes16_lem :
    (a b : ℕ) → a < 2 ^ 8 → b < 2 ^ 8 → swap_bytes16 (word (a ∷ b ∷ [])) ≡ word (b ∷ a ∷ [])
unfolding swap_bytes16
swap_bytes16_lem a b ha hb =
    let v = word (a ∷ b ∷ []) in ground (arith, or_fields_comm 8 v (v / 2 ^ 8))

pub swap_bytes32_lem :
    (a b c d : ℕ)
    → a < 2 ^ 8
    → b < 2 ^ 8
    → c < 2 ^ 8
    → d < 2 ^ 8
    → swap_bytes32 (word (a ∷ b ∷ c ∷ d ∷ [])) ≡ word (d ∷ c ∷ b ∷ a ∷ [])
unfolding swap_bytes32
swap_bytes32_lem a b c d ha hb hc hd =
    let v = word (a ∷ b ∷ c ∷ d ∷ []) in
    ground (
      arith,
      and_mask 8 (v / 2 ^ 24),
      and_field 8 8 v,
      and_field 16 8 v,
      or_fields 24 a d,
      or_between 8 16 a b d,
      or_between 8 8 (a * 2 ^ 8 + b) c d,
    )

-- The bytes of a word of eight, from the most significant field that is filled so far.
pub swap_bytes64_lem :
    (a b c d e f g h : ℕ)
    → a < 2 ^ 8
    → b < 2 ^ 8
    → c < 2 ^ 8
    → d < 2 ^ 8
    → e < 2 ^ 8
    → f < 2 ^ 8
    → g < 2 ^ 8
    → h < 2 ^ 8
    → swap_bytes64 (word (a ∷ b ∷ c ∷ d ∷ e ∷ f ∷ g ∷ h ∷ []))
      ≡ word (h ∷ g ∷ f ∷ e ∷ d ∷ c ∷ b ∷ a ∷ [])
unfolding swap_bytes64
swap_bytes64_lem a b c d e f g h ha hb hc hd he hf hg hh =
    let v = word (a ∷ b ∷ c ∷ d ∷ e ∷ f ∷ g ∷ h ∷ []) in
    let ab = a * 2 ^ 8 + b in
    let abc = ab * 2 ^ 8 + c in
    let abcd = abc * 2 ^ 8 + d in
    let abcde = abcd * 2 ^ 8 + e in
    let abcdef = abcde * 2 ^ 8 + f in
    let abcdefg = abcdef * 2 ^ 8 + g in
    ground (
      arith,
      and_field 48 8 (v * 2 ^ 40 % 2 ^ 64),
      and_field 40 8 (v * 2 ^ 24 % 2 ^ 64),
      and_field 32 8 (v * 2 ^ 8 % 2 ^ 64),
      and_field 24 8 (v / 2 ^ 8),
      and_field 16 8 (v / 2 ^ 24),
      and_field 8 8 (v / 2 ^ 40),
      or_between 8 48 a b 0,
      or_between 8 40 ab c 0,
      or_between 8 32 abc d 0,
      or_between 8 24 abcd e 0,
      or_between 8 16 abcde f 0,
      or_between 8 8 abcdef g 0,
      or_fields 8 abcdefg h,
    )
