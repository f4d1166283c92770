-- ===== src/Hex.antt =====
-- encoding/hex as the program uses it.
use sneakernet.Prelude.{
  ℕ, ◌+◌, ◌-◌, ◌*◌, ◌/◌, ◌%◌, ◌<◌, ◌≡◌, refl, Option, none, some, ◌>>=◌, List, [], ◌∷◌, arith, All,
  ltb, if◌then◌else◌,
}
use sneakernet.Bytes.{IsByte}

unfoldable pub hex_digit : ℕ → ℕ
hex_digit n = if ltb n 10 then n + 48 else n + 87

unfoldable pub hex_value : ℕ → Option ℕ
hex_value c =
    if ltb c 48
    then none
    else if ltb c 58
    then some (c - 48)
    else if ltb c 65
    then none
    else if ltb c 71
    then some (c - 55)
    else if ltb c 97
    then none
    else if ltb c 103
    then some (c - 87)
    else none

-- `EncodeToString`: two lower-case digits for each byte.
unfoldable pub encode : List ℕ → List ℕ
unfolding hex_digit
encode [] = []
encode (b ∷ bs) = hex_digit (b / 16) ∷ hex_digit (b % 16) ∷ encode bs

-- `DecodeString`: digits of both cases, an even number of them.
unfoldable pub decode : List ℕ → Option (List ℕ)
unfolding hex_value
decode [] = some []
decode (c ∷ []) = none
decode (c ∷ d ∷ cs) = do
  hi ← hex_value c
  lo ← hex_value d
  bs ← decode cs
  some ((hi * 16 + lo) ∷ bs)

hex_value-hex_digit : (n : ℕ) → n < 16 → hex_value (hex_digit n) ≡ some n
unfolding hex_value hex_digit
hex_value-hex_digit n h = ground arith

pub decode-encode : (bs : List ℕ) → All IsByte bs → decode (encode bs) ≡ some bs
unfolding decode encode
decode-encode [] h = refl
decode-encode (b ∷ bs) h =
    ground (arith, hex_value-hex_digit (b / 16), hex_value-hex_digit (b % 16), decode-encode bs h.1)

-- The digits are ASCII characters.
pub encode-All : (bs : List ℕ) → All IsByte bs → All (λ c. c < 128) (encode bs)
unfolding encode hex_digit
encode-All [] h = tt
encode-All (b ∷ bs) h = (ground arith, (ground arith, encode-All bs h.1))
