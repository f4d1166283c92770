-- ===== src/Blockstore.antt =====
-- blockstore/blockstore.go: sizes, tags, block references and the page cursor.
pub mod Cursor
pub mod Pow
pub mod Paging
pub mod Kv
pub mod Badger
pub mod Index
use sneakernet.Prelude.{
  ℕ, ◌+◌, ◌≡◌, Option, none, some, List, [], ◌∷◌, ◌++◌, length, take, drop, slice, copy_at,
  replicate, ◌==◌, if◌then◌else◌,
}
use sneakernet.Integers.{ℤ, pos, to_u64, from_u64}
use sneakernet.Bytes.{put_be, get_be, IsBytes}
use sneakernet.Base64

abbrev pub payload_size : ℕ
payload_size = 4096

abbrev pub stamp_size : ℕ
stamp_size = 4

abbrev pub id_size : ℕ
id_size = 32

-- `Stamp`, `Payload` and `ID` are byte arrays of these sizes.
abbrev pub IsStamp : List ℕ → Type 0
IsStamp = IsBytes stamp_size

abbrev pub IsPayload : List ℕ → Type 0
IsPayload = IsBytes payload_size

abbrev pub IsId : List ℕ → Type 0
IsId = IsBytes id_size

-- The origin of a block. The number is the constant's value.
pub data Tag : Type 0 where
  physical lan regional global bluetooth : Tag

pub record BlockRef : Type 0 where
  pub work_factor : ℕ
  pub id : List ℕ
  pub created_at : ℤ
  pub tag : ℕ

pub record PageCursor : Type 0 where
  pub created_at : ℤ
  pub id : List ℕ

-- Eight bytes of time and 32 of the ID, as base64 text.
unfoldable pub encode_cursor : PageCursor → List ℕ
encode_cursor c =
    let buf = replicate 40 0 in
    let buf = copy_at 0 buf (put_be 8 (to_u64 c.created_at)) in
    let buf = copy_at 8 buf c.id in Base64.encode buf

abbrev cursor_of : Option (List ℕ) → Option PageCursor
cursor_of none = none
cursor_of (some b) =
    if length b == 8 + id_size
    then some (record { created_at = from_u64 (get_be (take 8 b)); id = drop 8 b })
    else none

-- `none` is the error "invalid page token".
unfoldable pub decode_cursor : List ℕ → Option PageCursor
decode_cursor token = cursor_of (Base64.decode token)

-- `BlockRef.Token`.
unfoldable pub token : BlockRef → List ℕ
token r = encode_cursor (record { created_at = r.created_at; id = r.id })
