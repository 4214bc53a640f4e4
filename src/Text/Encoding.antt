-- ===== src/Text/Encoding.antt =====
-- `ConvertUTF8To32` against the encoding of a character.
use hon_os.Prelude.{
  ℕ, ◌+◌, ◌-◌, ◌*◌, ◌/◌, ◌%◌, ◌^◌, ◌≤◌, ◌<◌, ◌≡◌, refl, ap, ◌∙◌, bit_or, List, [], ◌∷◌, ◌++◌, some,
  false, ltb, if◌then◌else◌, arith, length, Bool-cases, inl, inr,
}
use hon_os.Prelude.Bits.{bit_and_ones, bit_or_sum}
use hon_os.Text.{count_utf8_size, char_at, char32, part, convert_utf8_to32}

-- The bytes of a character below 2 ^ 21.
abbrev pub encode : ℕ → List ℕ
encode c =
    if ltb c 0x80
    then c ∷ []
    else if ltb c 0x800
    then (0xc0 + c / 2 ^ 6) ∷ (0x80 + c % 2 ^ 6) ∷ []
    else if ltb c 0x10000
    then (0xe0 + c / 2 ^ 12) ∷ (0x80 + c / 2 ^ 6 % 2 ^ 6) ∷ (0x80 + c % 2 ^ 6) ∷ []
    else (0xf0 + c / 2 ^ 18)
      ∷ (0x80 + c / 2 ^ 12 % 2 ^ 6)
      ∷ (0x80 + c / 2 ^ 6 % 2 ^ 6)
      ∷ (0x80 + c % 2 ^ 6)
      ∷ []

-- The lowest bits of a byte that starts or goes on with a character of several bytes.
part_lem :
    (k c bits : ℕ)
    → 0x80 ≤ c
    → k ≤ 6
    → part c (2 ^ k - 1) bits ≡ (c + 0xffffff00) % 2 ^ k * 2 ^ bits % 2 ^ 32
part_lem k c bits h l =
    let high : ltb c 0x80 ≡ false = ground arith in rw (high, bit_and_ones k (c + 0xffffff00)) refl

-- The parts of two, three and four bytes.
two_parts :
    (c : ℕ)
    → 0x80 ≤ c
    → c < 0x800
    → bit_or (part (0xc0 + c / 2 ^ 6) 0x1f 6) (part (0x80 + c % 2 ^ 6) 0x3f 0) ≡ c
two_parts c h l =
    let a = part_lem 5 (0xc0 + c / 2 ^ 6) 6 (omega arith) (omega arith) in
    let b = part_lem 6 (0x80 + c % 2 ^ 6) 0 (omega arith) (omega arith) in
    let a' : part (0xc0 + c / 2 ^ 6) 0x1f 6 ≡ c / 2 ^ 6 * 2 ^ 6 = a ∙ omega arith in
    let b' : part (0x80 + c % 2 ^ 6) 0x3f 0 ≡ c % 2 ^ 6 = b ∙ omega arith in
    rw (a', b')
      (bit_or_sum 6 (c / 2 ^ 6) (c / 2 ^ 6 * 2 ^ 6) (c % 2 ^ 6) refl (omega arith) ∙ omega arith)

three_parts :
    (c : ℕ)
    → 0x800 ≤ c
    → c < 0x10000
    → bit_or
        (bit_or (part (0xe0 + c / 2 ^ 12) 0x0f 12) (part (0x80 + c / 2 ^ 6 % 2 ^ 6) 0x3f 6))
        (part (0x80 + c % 2 ^ 6) 0x3f 0)
      ≡ c
three_parts c h l =
    let a' : part (0xe0 + c / 2 ^ 12) 0x0f 12 ≡ c / 2 ^ 12 * 2 ^ 12 =
      part_lem 4 (0xe0 + c / 2 ^ 12) 12 (omega arith) (omega arith) ∙ omega arith in
    let b' : part (0x80 + c / 2 ^ 6 % 2 ^ 6) 0x3f 6 ≡ c / 2 ^ 6 % 2 ^ 6 * 2 ^ 6 =
      part_lem 6 (0x80 + c / 2 ^ 6 % 2 ^ 6) 6 (omega arith) (omega arith) ∙ omega arith in
    let c' : part (0x80 + c % 2 ^ 6) 0x3f 0 ≡ c % 2 ^ 6 =
      part_lem 6 (0x80 + c % 2 ^ 6) 0 (omega arith) (omega arith) ∙ omega arith in
    let one =
      bit_or_sum 12 (c / 2 ^ 12) (c / 2 ^ 12 * 2 ^ 12) (c / 2 ^ 6 % 2 ^ 6 * 2 ^ 6) refl
        (omega arith) in
    rw (a', b', c', one)
      (bit_or_sum 6 (c / 2 ^ 6) (c / 2 ^ 12 * 2 ^ 12 + c / 2 ^ 6 % 2 ^ 6 * 2 ^ 6) (c % 2 ^ 6)
          (omega arith) (omega arith)
        ∙ omega arith)

four_parts :
    (c : ℕ)
    → 0x10000 ≤ c
    → c < 2 ^ 21
    → bit_or
        (bit_or
          (bit_or (part (0xf0 + c / 2 ^ 18) 0x07 18) (part (0x80 + c / 2 ^ 12 % 2 ^ 6) 0x3f 12))
          (part (0x80 + c / 2 ^ 6 % 2 ^ 6) 0x3f 6))
        (part (0x80 + c % 2 ^ 6) 0x3f 0)
      ≡ c
four_parts c h l =
    let a' : part (0xf0 + c / 2 ^ 18) 0x07 18 ≡ c / 2 ^ 18 * 2 ^ 18 =
      part_lem 3 (0xf0 + c / 2 ^ 18) 18 (omega arith) (omega arith) ∙ omega arith in
    let b' : part (0x80 + c / 2 ^ 12 % 2 ^ 6) 0x3f 12 ≡ c / 2 ^ 12 % 2 ^ 6 * 2 ^ 12 =
      part_lem 6 (0x80 + c / 2 ^ 12 % 2 ^ 6) 12 (omega arith) (omega arith) ∙ omega arith in
    let c' : part (0x80 + c / 2 ^ 6 % 2 ^ 6) 0x3f 6 ≡ c / 2 ^ 6 % 2 ^ 6 * 2 ^ 6 =
      part_lem 6 (0x80 + c / 2 ^ 6 % 2 ^ 6) 6 (omega arith) (omega arith) ∙ omega arith in
    let d' : part (0x80 + c % 2 ^ 6) 0x3f 0 ≡ c % 2 ^ 6 =
      part_lem 6 (0x80 + c % 2 ^ 6) 0 (omega arith) (omega arith) ∙ omega arith in
    let one =
      bit_or_sum 18 (c / 2 ^ 18) (c / 2 ^ 18 * 2 ^ 18) (c / 2 ^ 12 % 2 ^ 6 * 2 ^ 12) refl
        (omega arith) in
    let two =
      bit_or_sum 12 (c / 2 ^ 12) (c / 2 ^ 18 * 2 ^ 18 + c / 2 ^ 12 % 2 ^ 6 * 2 ^ 12)
        (c / 2 ^ 6 % 2 ^ 6 * 2 ^ 6) (omega arith) (omega arith) in
    rw (a', b', c', d', one, two)
      (bit_or_sum 6 (c / 2 ^ 6)
          (c / 2 ^ 18 * 2 ^ 18 + c / 2 ^ 12 % 2 ^ 6 * 2 ^ 12 + c / 2 ^ 6 % 2 ^ 6 * 2 ^ 6)
          (c % 2 ^ 6) (omega arith) (omega arith)
        ∙ omega arith)

size_two : (a : ℕ) → 0xc0 ≤ a → a < 0xe0 → count_utf8_size a ≡ 2
unfolding count_utf8_size
size_two a h l = ground arith

size_three : (a : ℕ) → 0xe0 ≤ a → a < 0xf0 → count_utf8_size a ≡ 3
unfolding count_utf8_size
size_three a h l = ground arith

size_four : (a : ℕ) → 0xf0 ≤ a → a < 0xf8 → count_utf8_size a ≡ 4
unfolding count_utf8_size
size_four a h l = ground arith

size_one : (a : ℕ) → a < 0x80 → count_utf8_size a ≡ 1
unfolding count_utf8_size
size_one a h = ground arith

-- `ConvertUTF8To32` gives a character below 2 ^ 21 back from its encoding, and the number of the bytes,
-- whatever follows.
pub convert_utf8_to32-encode :
    (c : ℕ) (rest : List ℕ)
    → c < 2 ^ 21
    → convert_utf8_to32 (encode c ++ rest) ≡ some (c, length (encode c))
unfolding convert_utf8_to32 char_at
convert_utf8_to32-encode c rest h = elim (Bool-cases (ltb c 0x80)) [
  | inl one ↦ rw (one, size_one c (ground arith)) (let q : char32 c ≡ c = ground arith in rw q refl)
  | inr more ↦ elim (Bool-cases (ltb c 0x800)) [
    | inl two ↦
        rw (more, two, size_two (0xc0 + c / 2 ^ 6) (omega arith) (ground arith))
          (ap (λ n. some (n, 2)) (two_parts c (ground arith) (ground arith)))
    | inr more' ↦ elim (Bool-cases (ltb c 0x10000)) [
      | inl three ↦
          rw (more, more', three, size_three (0xe0 + c / 2 ^ 12) (omega arith) (ground arith))
            (ap (λ n. some (n, 3)) (three_parts c (ground arith) (ground arith)))
      | inr four ↦
          rw (more, more', four, size_four (0xf0 + c / 2 ^ 18) (omega arith) (omega arith))
            (ap (λ n. some (n, 4)) (four_parts c (ground arith) h))
    ]
  ]
]
