-- ===== src/Relay/Bloom/Bits.antt =====
-- The bits of the filter: every slot stands inside it, and setting a bit keeps the others.
use Prim.Native.Nat.{bit_and, bit_or, digits, bit_and-bitwise}
use sneakernet.Prelude.{
  ℕ, zero, suc, ◌/◌, ◌^◌, ◌<◌, ◌≤◌, min, ◌≡◌, refl, sym, ◌∙◌, Bool, true, false, not, ◌&&◌, ◌||◌,
  List, [], ◌∷◌, arith, inl, inr, ltb, ltb→lt, ◌==◌, length, get_or, set, length-set,
  get_or-set_self, get_or-set_ne, All, Bool-cases, ==_iff, tabulate, tabulate_at,
}
use sneakernet.Bytes.{IsByte, IsBytes}
use sneakernet.Relay.Bloom.{bloom_bytes, slot, set_bit, has_bit}

and_digits_le : (n a b : ℕ) → digits (λ b. zero) min n a b ≤ b
and_digits_le zero a b = omega arith
and_digits_le (suc n) zero b = omega arith
and_digits_le (suc n) (suc a) b = omega (arith, and_digits_le n (suc a / 2) (b / 2))

bit_and_le : (a b : ℕ) → bit_and a b ≤ b
bit_and_le a b = omega (arith, bit_and-bitwise a b, and_digits_le a a b)

pub slot-lt : (id : List ℕ) (off level : ℕ) → slot id off level < 65536
unfolding slot
slot-lt id off level = omega (arith, bit_and_le _ 65535)

-- On a byte: the new bit is set, the old ones stay, and it is a byte still.
abbrev bit_row : ℕ → ℕ → Bool
bit_row x k =
    ltb (bit_or x (2 ^ k)) 256
    && (not (bit_and (bit_or x (2 ^ k)) (2 ^ k) == 0)
        && tabulate (λ j. (bit_and x (2 ^ j) == 0) || not (bit_and (bit_or x (2 ^ k)) (2 ^ j) == 0))
            8)

bit_table : tabulate (λ x. tabulate (bit_row x) 8) 256 ≡ true
unfolding tabulate
bit_table = refl

split_and : (a b c : Bool) → a && (b && c) ≡ true → (a ≡ true) × (b ≡ true) × (c ≡ true)
split_and true true true h = (refl, refl, refl)
split_and true true false h = cc
split_and true false c h = cc
split_and false b c h = cc

or_not : (a b : Bool) → (a || not b) ≡ true → not a ≡ true → not b ≡ true
or_not true b h k = cc
or_not false true h k = cc
or_not false false h k = refl

abbrev lit : ℕ → ℕ → Bool
lit x k = not (bit_and x (2 ^ k) == 0)

abbrev set_keeps : ℕ → ℕ → ℕ → Bool
set_keeps x k j = (bit_and x (2 ^ j) == 0) || lit (bit_or x (2 ^ k)) j

byte_facts :
    (x k : ℕ)
    → x < 256
    → k < 8
    → (bit_or x (2 ^ k) < 256)
      × (lit (bit_or x (2 ^ k)) k ≡ true)
      × ((j : ℕ) → j < 8 → lit x j ≡ true → lit (bit_or x (2 ^ k)) j ≡ true)
byte_facts x k hx hk =
    let row =
      tabulate_at (bit_row x) 8 k (tabulate_at (λ x. tabulate (bit_row x) 8) 256 x bit_table hx)
        hk in
    let (small, own, others) =
      split_and (ltb (bit_or x (2 ^ k)) 256) (lit (bit_or x (2 ^ k)) k) (tabulate (set_keeps x k) 8)
        row in
    (
      ltb→lt _ _ small,
      own,
      λ j hj had.
          or_not (bit_and x (2 ^ j) == 0) (bit_and (bit_or x (2 ^ k)) (2 ^ j) == 0)
            (tabulate_at (set_keeps x k) 8 j others hj) had,
    )

get_or-IsByte : (bits : List ℕ) (i : ℕ) → All IsByte bits → get_or bits i 0 < 256
unfolding get_or
get_or-IsByte [] i h = omega arith
get_or-IsByte (b ∷ bits) zero h = h.0
get_or-IsByte (b ∷ bits) (suc i) h = get_or-IsByte bits i h.1

set-All : (bits : List ℕ) (i v : ℕ) → v < 256 → All IsByte bits → All IsByte (set bits i v)
unfolding set
set-All [] i v hv h = tt
set-All (b ∷ bits) zero v hv h = (hv, h.1)
set-All (b ∷ bits) (suc i) v hv h = (h.0, set-All bits i v hv h.1)

module _ (bits : List ℕ) (h : IsBytes bloom_bytes bits) (s : ℕ) (hs : s < 65536) where
  old_byte : get_or bits (s / 8) 0 < 256
  old_byte = get_or-IsByte bits (s / 8) h.bytes

  inside : s / 8 < length bits
  inside = omega (arith, h.size)

  abbrev cell : ℕ
  cell = get_or bits (s / 8) 0

  row :
      (bit_or cell (2 ^ bit_and s 7) < 256)
      × (lit (bit_or cell (2 ^ bit_and s 7)) (bit_and s 7) ≡ true)
      × ((j : ℕ) → j < 8 → lit cell j ≡ true → lit (bit_or cell (2 ^ bit_and s 7)) j ≡ true)
  row = byte_facts cell (bit_and s 7) old_byte (omega (arith, bit_and_le s 7))

  pub set_bit-IsBytes : IsBytes bloom_bytes (set_bit bits s)
  unfolding set_bit
  set_bit-IsBytes = record {
    size = length-set bits (s / 8) _ ∙ h.size;
    bytes = set-All bits (s / 8) _ row.0 h.bytes;
  }

  pub has_bit-set_bit_self : has_bit (set_bit bits s) s ≡ true
  unfolding set_bit has_bit
  has_bit-set_bit_self =
      rw (get_or-set_self bits (s / 8) (bit_or cell (2 ^ bit_and s 7)) 0 inside) row.1

  has_bit_same : (t : ℕ) → s / 8 ≡ t / 8 → has_bit bits t ≡ true → has_bit (set_bit bits s) t ≡ true
  unfolding set_bit has_bit
  has_bit_same t e had =
      rw (sym e, get_or-set_self bits (s / 8) (bit_or cell (2 ^ bit_and s 7)) 0 inside)
        (row.2 (bit_and t 7) (omega (arith, bit_and_le t 7)) (rw (sym e) at had))

  pub has_bit-set_bit : (t : ℕ) → has_bit bits t ≡ true → has_bit (set_bit bits s) t ≡ true
  unfolding set_bit has_bit
  has_bit-set_bit t had = elim (Bool-cases (s / 8 == t / 8)) [
    | inl e ↦ has_bit_same t ((==_iff _ _).0 e) had
    | inr e ↦
        rw (get_or-set_ne bits (s / 8) (t / 8) (bit_or cell (2 ^ bit_and s 7)) 0 (ground arith)) had
  ]
