-- ===== src/Text/Drawing.antt =====
-- What `WriteString` draws of an encoded text, and of one that is not.
use hon_os.Prelude.{
  ℕ, zero, suc, ◌+◌, ◌*◌, ◌^◌, ◌≤◌, ◌<◌, ◌≡◌, ◌⊎◌, refl, ◌∙◌, inl, inr, List, [], ◌∷◌, ◌++◌, some,
  none, ltb, leb, if◌then◌else◌, arith, length, drop, Bool-cases, ◌>>=◌,
}
use hon_os.Prelude.Slices.{drop_append_self}
use hon_os.Text.{count_utf8_size, char_at, convert_utf8_to32, is_hankaku, write_string}
use hon_os.Text.Encoding.{encode, convert_utf8_to32-encode}

-- Characters that a text can hold.
pub data AreCharacters : List ℕ → Type 0 where
  no_more : AreCharacters []
  one_more : (c : ℕ) (cs : List ℕ) → 0 < c → c < 2 ^ 21 → AreCharacters cs → AreCharacters (c ∷ cs)

abbrev pub encode_all : List ℕ → List ℕ
encode_all [] = []
encode_all (c ∷ cs) = encode c ++ encode_all cs

-- The characters one behind the other from column `x` on: a half width one takes a column of 8 pixels,
-- any other two.
abbrev pub columns : ℕ → List ℕ → List (ℕ × ℕ)
columns x [] = []
columns x (c ∷ cs) = (8 * x, c) ∷ columns (if leb c 0x7f then x + 1 else x + 2) cs

write_round :
    (fuel : ℕ) (bytes : List ℕ) (x u32 n : ℕ)
    → 0 < length bytes
    → convert_utf8_to32 bytes ≡ some (u32, n)
    → write_string (suc fuel) bytes x ≡ (
        write_string fuel (drop n bytes) (if is_hankaku u32 then x + 1 else x + 2) >>= λ rest.
        some ((8 * x, u32) ∷ rest))
unfolding write_string
write_round fuel [] x u32 n h e = absurd (omega arith)
write_round fuel (b ∷ bs) x u32 n h e = rw e refl

some_bytes : (c : ℕ) (rest : List ℕ) → 0 < length (encode c ++ rest)
some_bytes c rest = elim (Bool-cases (ltb c 0x80)) [
  | inl one ↦ rw one (omega arith)
  | inr more ↦ elim (Bool-cases (ltb c 0x800)) [
    | inl two ↦ rw (more, two) (omega arith)
    | inr more' ↦ elim (Bool-cases (ltb c 0x10000)) [
      | inl three ↦ rw (more, more', three) (omega arith)
      | inr four ↦ rw (more, more', four) (omega arith)
    ]
  ]
]

hankaku_lem : (c : ℕ) → is_hankaku c ≡ leb c 0x7f
unfolding is_hankaku
hankaku_lem c = refl

text_end : (fuel x : ℕ) → write_string fuel [] x ≡ some []
unfolding write_string
text_end zero x = refl
text_end (suc fuel) x = refl

-- `WriteString` of a text that encodes characters between 0 and 2 ^ 21 draws these characters one behind the other, in as
-- many rounds as there are characters.
pub write_string-encode_all :
    (fuel : ℕ) (cs : List ℕ) (x : ℕ)
    → AreCharacters cs
    → length cs ≤ fuel
    → write_string fuel (encode_all cs) x ≡ some (columns x cs)
write_string-encode_all fuel _ x no_more l = text_end fuel x
write_string-encode_all zero _ x (one_more c cs z h k) l = absurd (omega arith)
write_string-encode_all (suc fuel) _ x (one_more c cs z h k) l =
    let next : ℕ = if leb c 0x7f then x + 1 else x + 2 in
    write_round fuel (encode c ++ encode_all cs) x c (length (encode c))
      (some_bytes c (encode_all cs)) (convert_utf8_to32-encode c (encode_all cs) h)
    ∙ rw
        (
          drop_append_self (encode c) (encode_all cs),
          hankaku_lem c,
          write_string-encode_all fuel cs next k (omega arith),
        )
        refl

stuck_convert :
    (c : ℕ) (cs : List ℕ) → count_utf8_size c ≡ 0 → convert_utf8_to32 (c ∷ cs) ≡ some (0, 0)
unfolding convert_utf8_to32 char_at
stuck_convert c cs h = rw h refl

no_size : (c : ℕ) → ((0x80 ≤ c) × (c < 0xc0)) ⊎ (0xf8 ≤ c) → count_utf8_size c ≡ 0
unfolding count_utf8_size
no_size c h = ground arith

-- `WriteString` does not end on a text whose first byte starts no character: no number of rounds is
-- enough, since each one goes on by 0 bytes.
pub write_string_stuck :
    (fuel c : ℕ) (cs : List ℕ) (x : ℕ)
    → ((0x80 ≤ c) × (c < 0xc0)) ⊎ (0xf8 ≤ c)
    → write_string fuel (c ∷ cs) x ≡ none
unfolding write_string
write_string_stuck zero c cs x h = refl
write_string_stuck (suc fuel) c cs x h =
    write_round fuel (c ∷ cs) x 0 0 (omega arith) (stuck_convert c cs (no_size c h))
    ∙ rw (write_string_stuck fuel c cs (if is_hankaku 0 then x + 1 else x + 2) h) refl
