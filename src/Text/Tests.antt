-- ===== src/Text/Tests.antt =====
-- Runs of the operations on texts, and instances of their properties.
use hon_os.Prelude.{ℕ, ◌≡◌, refl, List, [], ◌∷◌, ◌++◌, some, none, arith, length, inl}
use hon_os.Text.{count_utf8_size, char_at, convert_utf8_to32, write_string}
use hon_os.Text.Encoding.{encode, convert_utf8_to32-encode}
use hon_os.Text.Drawing.{
  no_more, one_more, encode_all, columns, write_string-encode_all, write_string_stuck,
}

-- The hiragana letter a, behind a Latin one.
abbrev letters : List ℕ
letters = b'a' ∷ 0x3042 ∷ []

letter_bytes : encode 0x3042 ≡ 0xe3 ∷ 0x81 ∷ 0x82 ∷ []
letter_bytes = refl

letter_read : convert_utf8_to32 (0xe3 ∷ 0x81 ∷ 0x82 ∷ []) ≡ some (0x3042, 3)
unfolding convert_utf8_to32 count_utf8_size char_at
letter_read = refl

convert_utf8_to32-encode_example :
    convert_utf8_to32 (encode 0x1f600 ++ (b'!' ∷ [])) ≡ some (0x1f600, length (encode 0x1f600))
convert_utf8_to32-encode_example = convert_utf8_to32-encode 0x1f600 (b'!' ∷ []) (omega arith)

write_string-encode_all_example : write_string 2 (encode_all letters) 0 ≡ some (columns 0 letters)
write_string-encode_all_example =
    write_string-encode_all 2 letters 0
      (one_more b'a' (0x3042 ∷ []) (omega arith) (omega arith)
        (one_more 0x3042 [] (omega arith) (omega arith) no_more))
      (omega arith)

write_string_stuck_example : write_string 1000 (0x81 ∷ []) 0 ≡ none
write_string_stuck_example = write_string_stuck 1000 0x81 [] 0 (inl (omega arith, omega arith))
