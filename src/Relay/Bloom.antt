-- ===== src/Relay/Bloom.antt =====
-- transport/relay/bloom.go: the filter over block IDs and work factors.
pub mod Bits
pub mod Store
pub mod Member
pub mod Lacking
use Prim.Native.Nat.{bit_and, bit_or, bit_xor}
use sneakernet.Prelude.{
  ℕ, zero, suc, ◌+◌, ◌*◌, ◌/◌, ◌%◌, ◌^◌, Bool, true, not, ◌&&◌, Option, none, some, ◌>>=◌, List, [],
  ◌∷◌, ltb, ◌==◌, if◌then◌else◌, length, slice, get_or, set, copy, replicate,
}
use sneakernet.Bytes.{get_be}
use sneakernet.Integers.{pos, negsuc, ℤ}
use sneakernet.Blockstore.{BlockRef}
use sneakernet.Blockstore.Paging.{Lister}

abbrev pub bloom_bits : ℕ
bloom_bits = 65536

abbrev pub bloom_bytes : ℕ
bloom_bytes = 8192

abbrev pub max_bloom_pow : ℕ
max_bloom_pow = 16

pub record Bloom : Type 0 where
  pub bits : List ℕ

abbrev pub new_bloom : Bloom
new_bloom = record { bits = replicate bloom_bytes 0 }

-- `uint32(level) * 2654435761` wraps around.
unfoldable pub slot : List ℕ → ℕ → ℕ → ℕ
slot id byte_offset level =
    let v = get_be (slice byte_offset (byte_offset + 4) id) in
    let v = bit_xor v ((level * 2654435761) % 2 ^ 32) in bit_and v 65535

-- `b.bits[s>>3] |= 1 << (s & 7)`.
unfoldable pub set_bit : List ℕ → ℕ → List ℕ
set_bit bits s = set bits (s / 8) (bit_or (get_or bits (s / 8) 0) (2 ^ bit_and s 7))

-- `b.bits[s>>3]&(1<<(s&7)) != 0`.
unfoldable pub has_bit : List ℕ → ℕ → Bool
has_bit bits s = not (bit_and (get_or bits (s / 8) 0) (2 ^ bit_and s 7) == 0)

abbrev pub offsets : List ℕ
offsets = 0 ∷ 8 ∷ 16 ∷ []

abbrev pub cap : ℕ → ℕ
cap wf = if ltb max_bloom_pow wf then max_bloom_pow else wf

unfoldable pub add_offsets : List ℕ → List ℕ → ℕ → List ℕ → List ℕ
add_offsets bits id level [] = bits
add_offsets bits id level (off ∷ offs) =
    add_offsets (set_bit bits (slot id off level)) id level offs

-- The loop over the levels, with `n` of them to go.
unfoldable pub add_levels : List ℕ → List ℕ → ℕ → ℕ → List ℕ
add_levels bits id level zero = bits
add_levels bits id level (suc n) = add_levels (add_offsets bits id level offsets) id (suc level) n

unfoldable pub add : Bloom → List ℕ → ℕ → Bloom
unfolding add_offsets add_levels
add b id wf = record { bits = add_levels b.bits id 0 (suc (cap wf)) }

unfoldable pub has_offsets : List ℕ → List ℕ → ℕ → List ℕ → Bool
has_offsets bits id level [] = true
has_offsets bits id level (off ∷ offs) =
    has_bit bits (slot id off level) && has_offsets bits id level offs

unfoldable pub has : Bloom → List ℕ → ℕ → Bool
has b id wf = has_offsets b.bits id (cap wf) offsets

unfoldable pub to_bytes : Bloom → List ℕ
to_bytes b = copy (replicate bloom_bytes 0) b.bits

-- `none` is the error for a wrong length.
unfoldable pub from_bytes : List ℕ → Option Bloom
from_bytes raw =
    if length raw == bloom_bytes
    then some (record { bits = copy (replicate bloom_bytes 0) raw })
    else none

unfoldable pub add_refs : Bloom → List BlockRef → Bloom
add_refs b [] = b
add_refs b (ref ∷ refs) = add_refs (add b ref.id ref.work_factor) refs

-- The loop of `BloomOfStore` from a page token on. `none` is an error, or more pages than the fuel.
unfoldable pub fill : Lister → ℕ → List ℕ → Bloom → Option Bloom
fill list zero token b = none
fill list (suc fuel) token b = list token >>= λ page. elim page.0 [
  | [] ↦ some (add_refs b page.1)
  | c ∷ next ↦ fill list fuel (c ∷ next) (add_refs b page.1)
]

-- `list` is `store.ListBlocks` with a page size of 500 and no floors.
unfoldable pub bloom_of_store : Lister → ℕ → Option Bloom
bloom_of_store list fuel = fill list fuel [] new_bloom

-- The `Unix()` of the zero `time.Time`.
abbrev pub zero_time : ℤ
zero_time = negsuc 62135596799
