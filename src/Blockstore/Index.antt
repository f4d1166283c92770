-- ===== src/Blockstore/Index.antt =====
-- blockstore/index.go: the index of a flat file store. zlib is a parameter; reading the headers of the
-- files and writing files are left out. Expiry times are 32-bit.
pub mod Search
pub mod Format
pub mod Shards
use Prim.Native.Nat.{Ordering}
use sneakernet.Prelude.{
  ℕ, zero, suc, ◌+◌, ◌*◌, ◌/◌, ◌%◌, ◌^◌, ◌≡◌, Bool, true, false, not, ◌&&◌, Option, none, some,
  ◌>>=◌, List, [], ◌∷◌, ◌++◌, ltb, ◌==◌, bytes_eq, if◌then◌else◌, length, get_or, set, drop, slice,
  copy_at, replicate,
}
use sneakernet.Integers.{ℤ, to_u64}
use sneakernet.Bytes.{put_be, get_be}
use sneakernet.Bytes.Order.{bytes_compare}
use sneakernet.Blockstore.{id_size}

abbrev pub index_magic : List ℕ
index_magic = b'S' ∷ b'N' ∷ b'K' ∷ b'1' ∷ []

abbrev pub index_rec_size : ℕ
index_rec_size = 38

pub record IndexRecord : Type 0 where
  pub id : List ℕ
  pub work_factor : ℕ
  pub expires_at : ℕ

-- `uint32(time.Now().Unix())`.
abbrev pub now_u32 : ℤ → ℕ
now_u32 now = to_u64 now % 2 ^ 32

abbrev pub is_expired : ℤ → IndexRecord → Bool
is_expired now r = ltb r.expires_at (now_u32 now)

abbrev pub zero_record : IndexRecord
zero_record = record { id = replicate 32 0; work_factor = 0; expires_at = 0 }

-- The loop over `lo` and `hi`; `none` is a loop that is not at its end when the fuel is.
unfoldable pub search_loop :
    List IndexRecord → List ℕ → (fuel lo hi : ℕ) → Option (Option IndexRecord)
search_loop records id zero lo hi = none
search_loop records id (suc fuel) lo hi =
    let mid = (lo + hi) / 2 in
    let upper = search_loop records id fuel (mid + 1) hi in
    let lower = search_loop records id fuel lo mid in
    if ltb lo hi
    then (elim (bytes_compare (IndexRecord.id (get_or records mid zero_record)) id) [
      | Ordering.eq ↦ some (some (get_or records mid zero_record))
      | Ordering.lt ↦ upper
      | Ordering.gt ↦ lower
    ])
    else some none

abbrev pub search : List IndexRecord → List ℕ → Option (Option IndexRecord)
search records id = search_loop records id (suc (length records)) 0 (length records)

-- `Index.Has`.
unfoldable pub index_has : ℤ → List IndexRecord → List ℕ → Option Bool
unfolding search_loop
index_has now records id = search records id >>= λ got. elim got [
  | none ↦ some false
  | some r ↦ some (not (is_expired now r))
]

-- `Index.Records`.
abbrev pub live_records : ℤ → List IndexRecord → List IndexRecord
live_records now [] = []
live_records now (r ∷ records) =
    let rest = live_records now records in if ltb (now_u32 now) r.expires_at then r ∷ rest else rest

unfoldable pub encode_record : IndexRecord → List ℕ
encode_record r =
    let rec = copy_at 0 (replicate index_rec_size 0) r.id in
    let rec = set rec id_size r.work_factor in
    let rec = copy_at (id_size + 1) rec (put_be 4 r.expires_at) in set rec (id_size + 5) 0

abbrev pub encode_records : List IndexRecord → List ℕ
encode_records [] = []
encode_records (r ∷ records) = encode_record r ++ encode_records records

unfoldable pub encode_header : ℕ → List ℕ
encode_header count = copy_at 4 (copy_at 0 (replicate 8 0) index_magic) (put_be 4 (count % 2 ^ 32))

-- The loop over the records from an offset on.
unfoldable pub parse_records : List ℕ → (off count : ℕ) → List IndexRecord
parse_records raw off zero = []
parse_records raw off (suc n) =
    record {
      id = slice off (off + id_size) raw;
      work_factor = get_or raw (off + id_size) 0;
      expires_at = get_be (slice (off + id_size + 1) (off + id_size + 5) raw);
    }
    ∷ parse_records raw (off + index_rec_size) n

unfoldable pub parse_index : List ℕ → Option (List IndexRecord)
unfolding parse_records
parse_index raw =
    let count = get_be (slice 4 8 raw) in
    let rest = drop 8 raw in
    if ltb (length raw) 8
    then none
    else (if bytes_eq (slice 0 4 raw) index_magic
        then (if ltb (length rest) (count * index_rec_size)
            then none
            else some (parse_records rest 0 count))
        else none)

-- compress/zlib.
pub record Zlib : Type 0 where
  pub deflate : List ℕ → List ℕ
  pub inflate : List ℕ → Option (List ℕ)

module _ (z : Zlib) where
  unfoldable pub encode_index : List IndexRecord → List ℕ
  unfolding encode_header encode_record
  encode_index records = z.deflate (encode_header (length records) ++ encode_records records)

  unfoldable pub open_index : List ℕ → Option (List IndexRecord)
  unfolding parse_index
  open_index file = z.inflate file >>= λ raw. parse_index raw

abbrev pub first_byte : IndexRecord → ℕ
first_byte r = get_or r.id 0 0

-- The records in front of the first that is not of shard `b`, and the others.
unfoldable pub shard : ℕ → List IndexRecord → List IndexRecord × List IndexRecord
shard b [] = ([], [])
shard b (r ∷ records) =
    let rest = shard b records in
    if first_byte r == b then (r ∷ rest.0, rest.1) else ([], r ∷ records)

-- The shards from `b` on, `n` of them.
unfoldable pub shards : (b n : ℕ) → List IndexRecord → List (List IndexRecord)
unfolding shard
shards b zero records = []
shards b (suc n) records = let parts = shard b records in parts.0 ∷ shards (suc b) n parts.1
