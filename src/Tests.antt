-- ===== src/Tests.antt =====
-- Test data, and in the child modules runs of the model and the theorems at concrete inputs.
pub mod Store
pub mod Listing
pub mod Remote
pub mod Evictions
pub mod Filter
pub mod Median
pub mod Peers
pub mod Exchange
pub mod Messages
pub mod Sealed
pub mod Codec
pub mod Keys
pub mod Inbox
pub mod Index
use sneakernet.Prelude.{ℕ, ◌+◌, ◌%◌, ◌^◌, List, [], ◌∷◌, replicate, take, get_or, refl, arith}
use sneakernet.Bytes.{put_be, get_be, put_be-IsBytes, zeros-IsBytes, IsBytes}
use sneakernet.Blockstore.{IsStamp, IsPayload}
use sneakernet.Blockstore.Pow.{Hashes}

-- Stand-ins for the hash functions: 32 bytes made from the first bytes of the input.
unfoldable pub toy : Hashes
toy = record {
  sha256 = λ input. put_be 32 (get_be (take 8 input));
  argon2 = λ input. put_be 32 (2 ^ (200 + get_or input 3 0 % 50));
  sha256-IsBytes = λ input. put_be-IsBytes 32 (get_be (take 8 input));
  argon2-IsBytes = λ input. put_be-IsBytes 32 (2 ^ (200 + get_or input 3 0 % 50));
}

abbrev pub stamp : List ℕ
stamp = replicate 4 0

-- A stamp with a lower work factor.
abbrev pub weak_stamp : List ℕ
weak_stamp = 0 ∷ 0 ∷ 0 ∷ 9 ∷ []

abbrev pub payload : List ℕ
payload = replicate 4096 0

pub stamp-IsStamp : IsStamp stamp
stamp-IsStamp = zeros-IsBytes 4

pub weak_stamp-IsStamp : IsStamp weak_stamp
weak_stamp-IsStamp = record {
  size = refl;
  bytes = (omega arith, (omega arith, (omega arith, (omega arith, tt))));
}

pub payload-IsPayload : IsPayload payload
payload-IsPayload = zeros-IsBytes 4096
