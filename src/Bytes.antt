-- ===== src/Bytes.antt =====
-- The byte order conversions of encoding/binary and the comparison of bytes.Compare.
pub mod Order
use native.Mathlib.Nat.{pow-suc}
use native.Mathlib.Numerals.{add-one}
use sneakernet.Prelude.{
  ℕ, zero, suc, ◌+◌, ◌*◌, ◌/◌, ◌%◌, ◌^◌, ◌<◌, ◌≤◌, ◌≡◌, refl, ap, ◌∙◌, List, [], ◌∷◌, ◌++◌, arith,
  length, length-append, length-replicate, replicate, All, All-append,
}

abbrev pub IsByte : ℕ → Type 0
IsByte b = b < 256

-- A byte array of `n` elements.
pub record IsBytes (n : ℕ) (bs : List ℕ) : Type 0 where
  pub size : length bs ≡ n
  pub bytes : All IsByte bs

-- `binary.BigEndian.PutUint32` and `PutUint64`, for `w` bytes: the highest byte first.
unfoldable pub put_be : ℕ → ℕ → List ℕ
put_be zero v = []
put_be (suc w) v = put_be w (v / 256) ++ v % 256 ∷ []

-- `binary.BigEndian.Uint32` and `Uint64`: byte `i` counts `256 ^ (w - 1 - i)`.
unfoldable pub get_be : List ℕ → ℕ
get_be [] = 0
get_be (b ∷ bs) = b * 256 ^ length bs + get_be bs

-- `binary.LittleEndian.PutUint16` and `PutUint64`.
unfoldable pub put_le : ℕ → ℕ → List ℕ
put_le zero v = []
put_le (suc w) v = v % 256 ∷ put_le w (v / 256)

unfoldable pub get_le : List ℕ → ℕ
get_le [] = 0
get_le (b ∷ bs) = b + 256 * get_le bs

pub length-put_be : (w v : ℕ) → length (put_be w v) ≡ w
unfolding put_be
length-put_be zero v = refl
length-put_be (suc w) v =
    length-append (put_be w (v / 256)) (v % 256 ∷ []) ∙ omega (arith, length-put_be w (v / 256))

pub length-put_le : (w v : ℕ) → length (put_le w v) ≡ w
unfolding put_le
length-put_le zero v = refl
length-put_le (suc w) v = ap suc (length-put_le w (v / 256))

put_be-All : (w v : ℕ) → All IsByte (put_be w v)
unfolding put_be
put_be-All zero v = tt
put_be-All (suc w) v =
    All-append IsByte (put_be w (v / 256)) (v % 256 ∷ []) (put_be-All w (v / 256)) (omega arith)

pub put_be-IsBytes : (w v : ℕ) → IsBytes w (put_be w v)
put_be-IsBytes w v = record { size = length-put_be w v; bytes = put_be-All w v }

zeros-All : (n : ℕ) → All IsByte (replicate n 0)
unfolding replicate
zeros-All zero = tt
zeros-All (suc n) = (omega arith, zeros-All n)

-- A new byte array holds zeros.
pub zeros-IsBytes : (n : ℕ) → IsBytes n (replicate n 0)
zeros-IsBytes n = record { size = length-replicate n 0; bytes = zeros-All n }

put_le-All : (w v : ℕ) → All IsByte (put_le w v)
unfolding put_le
put_le-All zero v = tt
put_le-All (suc w) v = (omega arith, put_le-All w (v / 256))

get_be-append_one : (bs : List ℕ) (b : ℕ) → get_be (bs ++ b ∷ []) ≡ get_be bs * 256 + b
unfolding get_be
get_be-append_one [] b = omega arith
get_be-append_one (c ∷ bs) b =
    let shift : c * 256 ^ length (bs ++ b ∷ []) ≡ 256 * (c * 256 ^ length bs) =
      ap (λ k. c * 256 ^ k) (length-append bs (b ∷ []) ∙ add-one (length bs))
      ∙ ap (λ t. c * t) (pow-suc 256 (length bs))
      ∙ omega arith in
    omega (arith, get_be-append_one bs b, shift)

-- What a big-endian write stores, a read returns.
pub get_be-put_be : (w v : ℕ) → v < 256 ^ w → get_be (put_be w v) ≡ v
unfolding put_be
get_be-put_be zero v h = unfold get_be in omega arith
get_be-put_be (suc w) v h = omega (
  arith,
  get_be-append_one (put_be w (v / 256)) (v % 256),
  get_be-put_be w (v / 256) (omega arith),
)

pub get_le-put_le : (w v : ℕ) → v < 256 ^ w → get_le (put_le w v) ≡ v
unfolding put_le get_le
get_le-put_le zero v h = omega arith
get_le-put_le (suc w) v h = omega (arith, get_le-put_le w (v / 256) (omega arith))

pub get_be-lt : (bs : List ℕ) → All IsByte bs → get_be bs < 256 ^ length bs
unfolding get_be
get_be-lt [] h = omega arith
get_be-lt (b ∷ bs) h = grind (arith, get_be-lt bs h.1)
