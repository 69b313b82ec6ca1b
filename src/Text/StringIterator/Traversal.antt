-- ===== src/Text/StringIterator/Traversal.antt =====
-- string_iterator.cpp: loops over a string.
use hologine.Base.{
  ℕ, zero, suc, ◌+◌, ◌<◌, ◌≡◌, refl, sym, ◌∙◌, ap, true, false, Option, none, some, List, [], ◌∷◌,
  ◌++◌, ◌>>=◌, length, drop, ltb, arith, ◌^◌, length-append,
}
use mathlib.Core.List.{append_assoc}
use hologine.Exception.Codes.{ExceptionCode, Numbering}
use hologine.Text.Utf8.{is_valid_code_point}
use hologine.Text.Utf8.RoundTrip.{encode, utf8_increment-encode}
use hologine.Text.StringIterator.{
  String, StringIterator, increment, is_offset_allowed, string_iterator, equal,
}

-- The encodings of code points, one behind the other.
unfoldable pub encode_all : List ℕ → List ℕ
encode_all [] = []
encode_all (c ∷ cs) = encode c ++ encode_all cs

abbrev pub AreEncodable : List ℕ → Type 0
AreEncodable [] = Unit
AreEncodable (c ∷ cs) = (c < 0x10000) × (is_valid_code_point c ≡ true) × AreEncodable cs

-- The loop `for (; i != last; ++i)` with the code points that its body sees; `none` where it faults
-- or does not end within `fuel` rounds.
pub visit : ⦃codes : Numbering⦄ → ℕ → StringIterator → StringIterator → Option (List ℕ)
visit zero i last = none
visit (suc fuel) i last = elim (equal i last) [
  | true ↦ some []
  | false ↦ do
    (pushed, after) ← increment i
    rest ← visit fuel after last
    some (i.cached_code_point_value ∷ rest)
]

-- All but the last.
abbrev pub front_of : List ℕ → List ℕ
front_of [] = []
front_of (c ∷ []) = []
front_of (c ∷ d ∷ cs) = c ∷ front_of (d ∷ cs)

-- A string whose bytes are the encodings of code points, with other bytes before and behind.
record Holds (s : String) (front : List ℕ) (cs rest : List ℕ) : Type 0 where
  characters :
      (bs : List ℕ) × (s.characters ≡ some bs)
      × (drop s.offset bs ≡ front ++ (encode_all cs ++ rest))
  length_of : s.length ≡ length front + length (encode_all cs)
  small : s.length < 2 ^ 64

abbrev at : String → ℕ → ℕ → ℕ → StringIterator
at s next current value = record {
  string = some s;
  next_offset = next;
  current_offset = current;
  cached_code_point_value = value;
  is_valid = true;
}

length-encode_pos : (c : ℕ) → 0 < length (encode c)
unfolding encode
length-encode_pos c = ground arith

split :
    (s : String) (front rest : List ℕ) (c : ℕ) (cs : List ℕ)
    → (h : Holds s front (c ∷ cs) rest)
    → drop s.offset h.characters.0 ≡ front ++ (encode c ++ (encode_all cs ++ rest))
unfolding encode_all
split s front rest c cs h =
    h.characters.2 ∙ ap (λ t. front ++ t) (append_assoc (encode c) (encode_all cs) rest)

-- One step of the iterator over a code point.
increment-encode :
    ⦃codes : Numbering⦄ (s : String) (front rest : List ℕ) (c : ℕ) (cs : List ℕ) (current value : ℕ)
    → Holds s front (c ∷ cs) rest
    → c < 0x10000
    → is_valid_code_point c ≡ true
    → increment (at s (length front) current value)
      ≡ some (none, at s (length front + length (encode c)) (length front) c)
unfolding increment encode_all
increment-encode s front rest c cs current value h l v =
    let (bs, e, g) = h.characters in
    let step =
      utf8_increment-encode front (encode_all cs ++ rest) s.length value h.small c l v
        (omega (arith, h.length_of, length-append (encode c) (encode_all cs))) in
    ground (arith, e, split s front rest c cs h, step)

-- Behind a code point the string holds the rest.
Holds-behind :
    (s : String) (front rest : List ℕ) (c : ℕ) (cs : List ℕ)
    → Holds s front (c ∷ cs) rest
    → Holds s (front ++ encode c) cs rest
unfolding encode_all
Holds-behind s front rest c cs h = record {
  characters = (
    h.characters.0,
    h.characters.1,
    split s front rest c cs h ∙ sym (append_assoc front (encode c) (encode_all cs ++ rest)),
  );
  length_of = omega (
    arith,
    h.length_of,
    length-append front (encode c),
    length-append (encode c) (encode_all cs),
  );
  small = h.small;
}

-- An iterator that has read a code point sees it and those behind it, without the last of them.
visit-at :
    ⦃codes : Numbering⦄ (s : String) (front rest : List ℕ) (c : ℕ) (cs : List ℕ)
    (current stale fuel : ℕ)
    → Holds s front cs rest
    → AreEncodable cs
    → length cs < fuel
    → visit fuel (at s (length front) current c) (at s s.length s.length stale)
      ≡ some (front_of (c ∷ cs))
unfolding visit equal encode_all
visit-at s front rest c cs current stale zero h w f = absurd (omega arith)
visit-at s front rest c [] current stale (suc fuel) h w f = ground (arith, h.length_of)
visit-at s front rest c (d ∷ cs) current stale (suc fuel) h (l, v, w) f =
    let after =
      visit-at s (front ++ encode d) rest d cs (length front) stale fuel
        (Holds-behind s front rest d cs h) w (omega arith) in
    let m : length front < s.length =
      omega (arith, h.length_of, length-append (encode d) (encode_all cs), length-encode_pos d) in
    ground (
      arith,
      increment-encode s front rest d cs current c h l v,
      rw (length-append front (encode d)) at after,
      m,
    )

is_offset_allowed-some :
    (characters : Option (List ℕ)) (bs : List ℕ) (offset : ℕ)
    → characters ≡ some bs
    → is_offset_allowed characters offset ≡ true
is_offset_allowed-some characters bs offset h = ground (arith, h)

-- `for (auto i = s.begin(), last = s.end(); i != last; ++i)`: the exceptions that the two
-- constructors push, and the code points that the body sees.
pub for_each :
    ⦃codes : Numbering⦄
    → ℕ
    → ℕ
    → String
    → Option (Option ExceptionCode × Option ExceptionCode × List ℕ)
unfolding visit string_iterator
for_each fuel stale s = do
  (pushed, first) ← string_iterator stale s 0
  (refused, last) ← string_iterator stale s s.length
  seen ← visit fuel first last
  some (pushed, refused, seen)

-- A loop from `begin()` to `end()` over a string that holds the encodings of valid code points below
-- 0x10000 reads nothing outside of the string, pushes no exception and ends within as many
-- rounds as there are code points, but its body sees all code points except the last one: the
-- iterators are compared by `next_offset`, which reaches the end with the last code point read.
pub for_each-front_of :
    ⦃codes : Numbering⦄ (stale : ℕ) (s : String) (bs cs rest : List ℕ)
    → s.characters ≡ some bs
    → drop s.offset bs ≡ encode_all cs ++ rest
    → s.length ≡ length (encode_all cs)
    → s.length < 2 ^ 64
    → AreEncodable cs
    → for_each (suc (length cs)) stale s ≡ some (none, none, front_of cs)
unfolding for_each string_iterator visit equal encode_all
for_each-front_of stale s bs [] rest e g l m w = ground (arith, e, l)
for_each-front_of stale s bs (c ∷ cs) rest e g l m (lt, v, w) =
    let h : Holds s [] (c ∷ cs) rest = record {
      characters = (bs, e, g);
      length_of = omega (arith, l);
      small = m;
    } in
    let first = increment-encode s [] rest c cs 0 stale h lt v in
    let seen =
      visit-at s (encode c) rest c cs 0 stale (suc (suc (length cs)))
        (Holds-behind s [] rest c cs h) w (omega arith) in
    let inside : ltb 0 s.length ≡ true =
      ground (arith, l, length-append (encode c) (encode_all cs), length-encode_pos c) in
    let none_left : ltb s.length s.length ≡ false = ground arith in
    let next : 0 + length (encode c) ≡ length (encode c) = omega arith in
    let first' = rw next at first in
    rw
      (
        is_offset_allowed-some s.characters bs 0 e,
        is_offset_allowed-some s.characters bs s.length e,
        inside,
        none_left,
        first',
        seen,
      )
      refl
