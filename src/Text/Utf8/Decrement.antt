-- ===== src/Text/Utf8/Decrement.antt =====
-- utf8.cpp: `utf8_decrement` takes back a step of `utf8_increment`.
use hologine.Base.{
  ℕ, zero, suc, ◌+◌, ◌-◌, ◌^◌, ◌≤◌, ◌<◌, ◌≡◌, refl, ◌∙◌, ap, inl, inr, true, false, some, List,
  arith, ◌==◌, if◌then◌else◌, get_elem?, ◌>>=◌, Option-cases, Bool-cases,
}
use hologine.Exception.Codes.{ExceptionCode, Numbering, is_none, passes-cases}
use hologine.Text.Utf8.{
  decoded, get_utf8_sequence_length, is_utf8_trail_byte, trail_bytes, decode_sequence,
  utf8_increment, previous_lead, utf8_decrement, sequence_value, check_code_point,
}
use hologine.Text.Utf8.Bounds.{sequence_length_cases}

trail_bytes-suc :
    (string : List ℕ) (at count : ℕ)
    → trail_bytes string at (suc count) ≡ some true
    → (b : ℕ) × (get_elem? string at ≡ some b)
      × (is_utf8_trail_byte b ≡ true)
      × (trail_bytes string (at + 1) count ≡ some true)
unfolding trail_bytes
trail_bytes-suc string at count h = elim (Option-cases (get_elem? string at)) [
  | inl e ↦ absurd (ground (arith, e))
  | inr (b, e) ↦ (b, e, ground (arith, e), ground (arith, e))
]

-- Each of the bytes that `trail_bytes` passes is a trailing byte.
trail_byte_at :
    (string : List ℕ) (at count i : ℕ)
    → trail_bytes string at count ≡ some true
    → i < count
    → (b : ℕ) × (get_elem? string (at + i) ≡ some b) × (is_utf8_trail_byte b ≡ true)
trail_byte_at string at zero i h lt = absurd (omega arith)
trail_byte_at string at (suc count) zero h lt =
    let (b, e, t, r) = trail_bytes-suc string at count h in
    let same : at + 0 ≡ at = omega arith in (b, rw same e, t)
trail_byte_at string at (suc count) (suc i) h lt =
    let (b, e, t, r) = trail_bytes-suc string at count h in
    let same : at + suc i ≡ at + 1 + i = omega arith in
    rw same (trail_byte_at string (at + 1) count i r (omega arith))

-- A byte that announces a sequence is no trailing byte.
lead_is_no_trail :
    (lead : ℕ)
    → (get_utf8_sequence_length lead).0 ≡ ExceptionCode.none
    → is_utf8_trail_byte lead ≡ false
unfolding get_utf8_sequence_length is_utf8_trail_byte
lead_is_no_trail lead h = ground arith

previous_lead-suc :
    (string : List ℕ) (c : ℕ)
    → previous_lead string (suc c) ≡ (
        if c == 0 then some 0 else do
          byte ← get_elem? string c
          if is_utf8_trail_byte byte then previous_lead string c else some c)
unfolding previous_lead
previous_lead-suc string c = refl

previous_lead-skip :
    (string : List ℕ) (c b : ℕ)
    → 0 < c
    → get_elem? string c ≡ some b
    → is_utf8_trail_byte b ≡ true
    → previous_lead string (suc c) ≡ previous_lead string c
previous_lead-skip string c b h e t = previous_lead-suc string c ∙ ground (arith, e, t)

-- The loop passes over trailing bytes.
previous_lead-trail :
    (string : List ℕ) (offset count j : ℕ)
    → trail_bytes string (offset + 1) count ≡ some true
    → j ≤ count
    → previous_lead string (suc (offset + j)) ≡ previous_lead string (suc offset)
previous_lead-trail string offset count zero h lt =
    ap (λ (k : ℕ). previous_lead string (suc k)) (omega arith)
previous_lead-trail string offset count (suc j) h lt =
    let (b, e, t) = trail_byte_at string (offset + 1) count j h lt in
    let here : offset + 1 + j ≡ suc (offset + j) = omega arith in
    let same : offset + suc j ≡ suc (offset + j) = omega arith in
    rw (same, previous_lead-skip string (suc (offset + j)) b (omega arith) (rw here at e) t)
      (previous_lead-trail string offset count j h (omega arith))

previous_lead-stop :
    (string : List ℕ) (offset lead : ℕ)
    → get_elem? string offset ≡ some lead
    → is_utf8_trail_byte lead ≡ false
    → previous_lead string (suc offset) ≡ some offset
unfolding previous_lead
previous_lead-stop string offset lead e h = ground (arith, e, h)

-- What a successful increment has seen, with `count` trailing bytes.
record Success (string : List ℕ) (offset n v lead count : ℕ) : Type 0 where
  reads : get_elem? string offset ≡ some lead
  leads : get_utf8_sequence_length lead ≡ (ExceptionCode.none, suc count)
  ends : n ≡ offset + suc count
  trails : trail_bytes string (offset + 1) count ≡ some true
  value : sequence_value string offset (suc count) ≡ some v
  check : check_code_point (suc count) v ≡ ExceptionCode.none

-- It is all that an increment from there depends on.
Success-increment :
    ⦃codes : Numbering⦄ {string : List ℕ} {offset n v lead count : ℕ} (len v' : ℕ)
    → Success string offset n v lead count
    → n ≤ len
    → n < 2 ^ 64
    → utf8_increment string len offset v' ≡ some (decoded ExceptionCode.none n v)
unfolding utf8_increment decode_sequence
Success-increment len v' s h small = ground arith

decode_sequence-none :
    (string : List ℕ) (offset count v v' : ℕ)
    → decode_sequence string offset (suc count) v' ≡ some (ExceptionCode.none, v)
    → (trail_bytes string (offset + 1) count ≡ some true)
      × (sequence_value string offset (suc count) ≡ some v)
      × (check_code_point (suc count) v ≡ ExceptionCode.none)
unfolding decode_sequence
decode_sequence-none string offset count v v' h =
    elim (Option-cases (trail_bytes string (offset + 1) count)) [
      | inl e ↦ absurd (ground (arith, e))
      | inr (false, e) ↦ absurd (ground (arith, e))
      | inr (true, e) ↦ elim (Option-cases (sequence_value string offset (suc count))) [
        | inl f ↦ absurd (ground (arith, e, f))
        | inr (u, f) ↦ ground (arith, e, f)
      ]
    ]

increment-Success :
    ⦃codes : Numbering⦄ (string : List ℕ) (len offset n v v' : ℕ)
    → offset < 2 ^ 64
    → utf8_increment string len offset v' ≡ some (decoded ExceptionCode.none n v)
    → (lead : ℕ) × (count : ℕ) × Success string offset n v lead count × (n ≤ len)
unfolding utf8_increment
increment-Success string len offset n v v' small h = elim (Option-cases (get_elem? string offset)) [
  | inl e ↦ absurd (ground (arith, e))
  | inr (lead, e) ↦ elim (sequence_length_cases lead) [
    | inl (ok, p, q) ↦
        let count = (get_utf8_sequence_length lead).1 - 1 in
        let whole : (get_utf8_sequence_length lead).1 ≡ suc count = omega arith in
        elim (Option-cases (decode_sequence string offset (suc count) v')) [
          | inl f ↦ absurd (ground (arith, e, ok, whole, f))
          | inr ((code, u), f) ↦
              let facts : (code ≡ ExceptionCode.none)
                  × (u ≡ v)
                  × (n ≡ offset + suc count)
                  × (n ≤ len) =
                ground (arith, e, ok, whole, f, passes-cases code) in
              let inside =
                decode_sequence-none string offset count v v' (rw f (ground (arith, facts))) in
              (lead, count, ground (arith, e, ok, whole, facts, inside), facts.3)
        ]
    | inr bad ↦ elim (Bool-cases (is_none ExceptionCode.invalid_unicode_lead)) [
      | inl same ↦ absurd (ground (arith, e, bad, same))
      | inr differs ↦ absurd (ground (arith, e, bad, differs))
    ]
  ]
]

-- Where `utf8_increment` returns the constant `none`, `utf8_decrement` at the offset that it reached succeeds too: it
-- returns the same code point and goes back to where the increment started.
pub utf8_decrement-increment :
    ⦃codes : Numbering⦄ (string : List ℕ) (len offset n v v' v'' : ℕ)
    → offset < 2 ^ 64
    → len < 2 ^ 64
    → utf8_increment string len offset v' ≡ some (decoded ExceptionCode.none n v)
    → utf8_decrement string n v'' ≡ some (decoded ExceptionCode.none offset v)
unfolding utf8_decrement
utf8_decrement-increment string len offset n v v' v'' small fits h =
    let (lead, count, s, within) = increment-Success string len offset n v v' small h in
    let e : n ≡ suc (offset + count) = omega (arith, s.ends) in
    let back : previous_lead string n ≡ some offset = rw e (
      previous_lead-trail string offset count count s.trails (omega arith)
      ∙ previous_lead-stop string offset lead s.reads
          (lead_is_no_trail lead (ap (λ r. r.0) s.leads))) in
    let again = Success-increment n v'' s (omega arith) (omega (arith, within)) in
    ground (arith, back, again, s.ends)
