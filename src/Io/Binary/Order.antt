-- ===== src/Io/Binary/Order.antt =====
-- The byte orders of the reader and the writer: `swap_bytes` turns one into the other.
use hologine.Base.{
  ℕ, ◌^◌, ◌<◌, ◌≡◌, refl, sym, ap, ◌∙◌, not, List, arith, length, length-reverse, if◌then◌else◌,
}
use hologine.Base.Bytes.{length-bytes, word, bytes, word-bytes, IsBytes, word-lt, bytes-word}
use hologine.Math.Bits.{swap_bytes16, swap_bytes32, swap_bytes64}
use hologine.Math.Bits.Swap.{swap_bytes16_lem, swap_bytes32_lem, swap_bytes64_lem}
use hologine.Io.Binary.{Endianness, little, big, same_endianness, object_bytes, object_value}
use mathlib.Core.Path.{◌≡⟨◌⟩◌, ◌∎}
use mathlib.Core.List.{reverse, reverse-reverse}

-- `f` reverses the bytes of an integer of `n` bytes.
pub record Reverses (n : ℕ) (f : ℕ → ℕ) : Type 0 where
  pub bounded : (v : ℕ) → v < 256 ^ n → f v < 256 ^ n
  pub reverses : (v : ℕ) → v < 256 ^ n → bytes n (f v) ≡ reverse (bytes n v)

Reverses-word :
    (n : ℕ) (f : ℕ → ℕ) (flip : ℕ → List ℕ)
    → ((v : ℕ) → v < 256 ^ n → f v ≡ word (flip v))
    → ((v : ℕ) → flip v ≡ reverse (bytes n v))
    → ((v : ℕ) → IsBytes (flip v))
    → ((v : ℕ) → length (flip v) ≡ n)
    → Reverses n f
Reverses-word n f flip is same small long = record {
  bounded = λ v h. rw (is v h) (rw (long v) at (word-lt (flip v) (small v)));
  reverses = λ v h. rw (is v h) ((rw (long v) at (bytes-word (flip v) (small v))) ∙ same v);
}

pub swap16-Reverses : Reverses 2 swap_bytes16
swap16-Reverses =
    Reverses-word 2 swap_bytes16 (λ v. reverse (bytes 2 v))
      (λ v h.
        ap swap_bytes16 (sym (word-bytes 2 v h)) ∙ swap_bytes16_lem _ _ (omega arith) (omega arith))
      (λ v. refl) (λ v. omega arith) (λ v. refl)

pub swap32-Reverses : Reverses 4 swap_bytes32
swap32-Reverses =
    Reverses-word 4 swap_bytes32 (λ v. reverse (bytes 4 v))
      (λ v h.
        ap swap_bytes32 (sym (word-bytes 4 v h))
        ∙ swap_bytes32_lem _ _ _ _ (omega arith) (omega arith) (omega arith) (omega arith))
      (λ v. refl) (λ v. omega arith) (λ v. refl)

pub swap64-Reverses : Reverses 8 swap_bytes64
swap64-Reverses =
    Reverses-word 8 swap_bytes64 (λ v. reverse (bytes 8 v))
      (λ v h.
        ap swap_bytes64 (sym (word-bytes 8 v h))
        ∙ swap_bytes64_lem _ _ _ _ _ _ _ _ (omega arith) (omega arith) (omega arith) (omega arith)
            (omega arith) (omega arith) (omega arith) (omega arith))
      (λ v. refl) (λ v. omega arith) (λ v. refl)

-- Reading bytes as they were laid out gives the integer back.
pub object_value-object_bytes :
    (e : Endianness) (n v : ℕ) → v < 256 ^ n → object_value e (object_bytes e n v) ≡ v
object_value-object_bytes little n v h = word-bytes n v h
object_value-object_bytes big n v h = rw reverse-reverse (word-bytes n v h)

pub length-object_bytes : (e : Endianness) (n v : ℕ) → length (object_bytes e n v) ≡ n
length-object_bytes little n v = length-bytes n v
length-object_bytes big n v = length-reverse (bytes n v) ∙ length-bytes n v

module _ {n : ℕ} {f : ℕ → ℕ} (r : Reverses n f) where
  -- What a writer lays out on any host is the requested order.
  pub written_order :
      (host e : Endianness) (v : ℕ)
      → v < 256 ^ n
      → object_bytes host n (if not (same_endianness e host) then f v else v) ≡ object_bytes e n v
  written_order little little v h = refl
  written_order little big v h = r.reverses v h
  written_order big little v h = ap reverse (r.reverses v h) ∙ reverse-reverse (bytes n v)
  written_order big big v h = refl

  swap-swap : (v : ℕ) → v < 256 ^ n → f (f v) ≡ v
  swap-swap v h =
      f (f v)
      ≡⟨ sym (word-bytes n (f (f v)) (r.bounded (f v) (r.bounded v h))) ⟩ word (bytes n (f (f v)))
      ≡⟨ ap word (r.reverses (f v) (r.bounded v h)) ⟩ word (reverse (bytes n (f v)))
      ≡⟨ ap (λ t. word (reverse t)) (r.reverses v h) ⟩ word (reverse (reverse (bytes n v)))
      ≡⟨ ap word (reverse-reverse (bytes n v)) ⟩ word (bytes n v)
      ≡⟨ word-bytes n v h ⟩ v ∎

  reversed_value : (v : ℕ) → v < 256 ^ n → word (reverse (bytes n v)) ≡ f v
  reversed_value v h = ap word (sym (r.reverses v h)) ∙ word-bytes n (f v) (r.bounded v h)

  -- What a reader on any host makes of bytes in the requested order.
  pub read_order :
      (host e : Endianness) (v : ℕ)
      → v < 256 ^ n
      → (if not (same_endianness e host)
          then f (object_value host (object_bytes e n v))
          else object_value host (object_bytes e n v))
        ≡ v
  read_order little little v h = object_value-object_bytes little n v h
  read_order big big v h = object_value-object_bytes big n v h
  read_order little big v h = ap f (reversed_value v h) ∙ swap-swap v h
  read_order big little v h = ap f (reversed_value v h) ∙ swap-swap v h
