-- ===== src/ByteArray/Hex.antt =====
-- to_hex_string of src/bytearray.cpp.
use cool.Base.{ℕ, suc, ◌/◌, ◌%◌, ◌&&◌, List, [], ◌∷◌, ◌++◌, ltb, ◌==◌, if◌then◌else◌}
use cool.Base.Text.{hex_digit, Text}
use cool.ByteArray.{ByteArray, Outcome, ok, ◌>>=◌, to_string}

-- The loop: two digits and a space for each byte, and a new line after every 32.
unfoldable pub hex_bytes : ℕ → List ℕ → Text
hex_bytes i [] = []
hex_bytes i (x ∷ xs) =
    (if ltb 0 i && i % 32 == 0 then 10 ∷ [] else [])
    ++ hex_digit (x / 16) ∷ hex_digit (x % 16) ∷ b' ' ∷ hex_bytes (suc i) xs

unfoldable pub to_hex_string : ByteArray → Outcome Text
to_hex_string b = do str ← to_string b; ok (hex_bytes 0 str)
