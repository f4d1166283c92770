-- ===== src/Base64.antt =====
-- encoding/base64 as the program uses it: `RawURLEncoding`, which has no padding. Texts are lists
-- of character codes.
pub mod RoundTrip
use sneakernet.Prelude.{
  ℕ, ◌+◌, ◌-◌, ◌*◌, ◌/◌, ◌%◌, Option, none, some, List, [], ◌∷◌, ltb, ◌==◌, ◌||◌, ◌>>=◌,
  if◌then◌else◌,
}

-- The URL-safe alphabet: A-Z, a-z, 0-9, '-', '_'.
unfoldable pub char_of : ℕ → ℕ
char_of n =
    if ltb n 26
    then n + 65
    else if ltb n 52
    then n + 71
    else if ltb n 62
    then n - 4
    else if n == 62
    then 45
    else 95

unfoldable pub value_of : ℕ → Option ℕ
value_of c =
    if ltb c 45
    then none
    else if c == 45
    then some 62
    else if ltb c 48
    then none
    else if ltb c 58
    then some (c + 4)
    else if ltb c 65
    then none
    else if ltb c 91
    then some (c - 65)
    else if c == 95
    then some 63
    else if ltb c 97
    then none
    else if ltb c 123
    then some (c - 71)
    else none

-- `RawURLEncoding.EncodeToString`: three bytes become four characters, a rest one or two fewer.
unfoldable pub encode : List ℕ → List ℕ
encode [] = []
encode (a ∷ []) = char_of (a / 4) ∷ char_of (a % 4 * 16) ∷ []
encode (a ∷ b ∷ []) = char_of (a / 4) ∷ char_of (a % 4 * 16 + b / 16) ∷ char_of (b % 16 * 4) ∷ []
encode (a ∷ b ∷ c ∷ rest) =
    char_of (a / 4)
    ∷ char_of (a % 4 * 16 + b / 16)
    ∷ char_of (b % 16 * 4 + c / 64)
    ∷ char_of (c % 64)
    ∷ encode rest

-- The decoder passes over line breaks.
unfoldable pub skip_breaks : List ℕ → List ℕ
skip_breaks [] = []
skip_breaks (c ∷ cs) = if (c == 10) || (c == 13) then skip_breaks cs else c ∷ skip_breaks cs

unfoldable pub decode_quads : List ℕ → Option (List ℕ)
decode_quads [] = some []
decode_quads (p ∷ []) = none
decode_quads (p ∷ q ∷ []) = do x ← value_of p; y ← value_of q; some ((x * 4 + y / 16) ∷ [])
decode_quads (p ∷ q ∷ r ∷ []) = do
  x ← value_of p
  y ← value_of q
  z ← value_of r
  some ((x * 4 + y / 16) ∷ (y % 16 * 16 + z / 4) ∷ [])
decode_quads (p ∷ q ∷ r ∷ s ∷ rest) = do
  x ← value_of p
  y ← value_of q
  z ← value_of r
  w ← value_of s
  bytes ← decode_quads rest
  some ((x * 4 + y / 16) ∷ (y % 16 * 16 + z / 4) ∷ (z % 4 * 64 + w) ∷ bytes)

-- `RawURLEncoding.DecodeString`; `none` is its error.
unfoldable pub decode : List ℕ → Option (List ℕ)
decode text = decode_quads (skip_breaks text)
