-- ===== src/Base64/RoundTrip.antt =====
-- Decoding what was encoded.
use sneakernet.Prelude.{ℕ, ◌+◌, ◌*◌, ◌/◌, ◌%◌, ◌<◌, ◌≡◌, refl, some, List, [], ◌∷◌, arith, All}
use sneakernet.Bytes.{IsByte}
use sneakernet.Base64.{char_of, value_of, encode, skip_breaks, decode_quads, decode}

value_of-char_of : (n : ℕ) → n < 64 → value_of (char_of n) ≡ some n
unfolding value_of char_of
value_of-char_of n h = ground arith

lt-char_of : (n : ℕ) → 13 < char_of n
unfolding char_of
lt-char_of n = ground arith

skip_breaks-cons : (n : ℕ) (cs : List ℕ) → skip_breaks (char_of n ∷ cs) ≡ char_of n ∷ skip_breaks cs
unfolding skip_breaks
skip_breaks-cons n cs = ground (arith, lt-char_of n)

skip_breaks-encode : (bs : List ℕ) → skip_breaks (encode bs) ≡ encode bs
unfolding encode
skip_breaks-encode [] = unfold skip_breaks in refl
skip_breaks-encode (a ∷ []) = simp skip_breaks-cons (unfold skip_breaks in refl)
skip_breaks-encode (a ∷ b ∷ []) = simp skip_breaks-cons (unfold skip_breaks in refl)
skip_breaks-encode (a ∷ b ∷ c ∷ rest) = simp (skip_breaks-cons, skip_breaks-encode rest)

decode_quads-encode : (bs : List ℕ) → All IsByte bs → decode_quads (encode bs) ≡ some bs
unfolding encode decode_quads
decode_quads-encode [] h = refl
decode_quads-encode (a ∷ []) h =
    ground (arith, value_of-char_of (a / 4), value_of-char_of (a % 4 * 16))
decode_quads-encode (a ∷ b ∷ []) h = ground (
  arith,
  value_of-char_of (a / 4),
  value_of-char_of (a % 4 * 16 + b / 16),
  value_of-char_of (b % 16 * 4),
)
decode_quads-encode (a ∷ b ∷ c ∷ rest) h = ground (
  arith,
  value_of-char_of (a / 4),
  value_of-char_of (a % 4 * 16 + b / 16),
  value_of-char_of (b % 16 * 4 + c / 64),
  value_of-char_of (c % 64),
  decode_quads-encode rest,
)

-- Decoding gives back the bytes that were encoded.
pub decode-encode : (bs : List ℕ) → All IsByte bs → decode (encode bs) ≡ some bs
unfolding decode
decode-encode bs h = rw (skip_breaks-encode bs) (decode_quads-encode bs h)
