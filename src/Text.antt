-- ===== src/Text.antt =====
-- kernel/font.cpp: UTF-8 texts, and the places of the characters that `WriteString` draws. A text is the
-- list of its bytes before the closing 0, which can be read too; `none` is a read behind it, or a loop
-- that does not end.
pub mod Encoding
pub mod Drawing
mod Tests
use hon_os.Prelude.{
  ℕ, zero, suc, ◌+◌, ◌*◌, ◌%◌, ◌^◌, bit_and, bit_or, List, [], ◌∷◌, Option, none, some, Bool, true,
  false, ◌&&◌, ◌==◌, ltb, leb, if◌then◌else◌, drop, ◌>>=◌,
}

pub count_utf8_size : ℕ → ℕ
count_utf8_size c =
    if ltb c 0x80
    then 1
    else if leb 0xc0 c && ltb c 0xe0
    then 2
    else if leb 0xe0 c && ltb c 0xf0
    then 3
    else if leb 0xf0 c && ltb c 0xf8
    then 4
    else 0

-- `u8[i]`.
pub char_at : List ℕ → ℕ → Option ℕ
char_at [] zero = some 0
char_at [] (suc i) = none
char_at (c ∷ cs) zero = some c
char_at (c ∷ cs) (suc i) = char_at cs i

-- `static_cast<char32_t>` of a `char`, which has a sign.
abbrev pub char32 : ℕ → ℕ
char32 c = if ltb c 0x80 then c else c + 0xffffff00

-- Some of the bits of a byte, at their place in a character.
abbrev pub part : ℕ → ℕ → ℕ → ℕ
part c mask bits = bit_and (char32 c) mask * 2 ^ bits % 2 ^ 32

-- `ConvertUTF8To32`: the character, and the number of its bytes.
pub convert_utf8_to32 : List ℕ → Option (ℕ × ℕ)
convert_utf8_to32 u8 = char_at u8 0 >>= λ a.
    let size = count_utf8_size a in
    let of_two : Option (ℕ × ℕ) =
      char_at u8 1 >>= λ b. some (bit_or (part a 0x1f 6) (part b 0x3f 0), 2) in
    let of_three : Option (ℕ × ℕ) = char_at u8 1 >>= λ b. char_at u8 2 >>= λ c.
    some (bit_or (bit_or (part a 0x0f 12) (part b 0x3f 6)) (part c 0x3f 0), 3) in
    let of_four : Option (ℕ × ℕ) = char_at u8 1 >>= λ b. char_at u8 2 >>= λ c. char_at u8 3 >>= λ d.
    some (
      bit_or (bit_or (bit_or (part a 0x07 18) (part b 0x3f 12)) (part c 0x3f 6)) (part d 0x3f 0),
      4,
    ) in
    if size == 1
    then some (char32 a, 1)
    else if size == 2
    then of_two
    else if size == 3
    then of_three
    else if size == 4
    then of_four
    else some (0, 0)

pub is_hankaku : ℕ → Bool
is_hankaku c = leb c 0x7f

-- The characters that `WriteString` draws, each with its distance from the start, from column `x` on.
-- The fuel bounds the rounds.
pub write_string : ℕ → List ℕ → ℕ → Option (List (ℕ × ℕ))
write_string fuel [] x = some []
write_string zero (c ∷ cs) x = none
write_string (suc fuel) (c ∷ cs) x = convert_utf8_to32 (c ∷ cs) >>= λ (u32, bytes).
    write_string fuel (drop bytes (c ∷ cs)) (if is_hankaku u32 then x + 1 else x + 2) >>= λ rest.
    some ((8 * x, u32) ∷ rest)
