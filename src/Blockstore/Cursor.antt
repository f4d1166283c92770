-- ===== src/Blockstore/Cursor.antt =====
-- The page token: what `decodeCursor` returns for what `encodeCursor` wrote.
use sneakernet.Prelude.{
  ◌≡◌, refl, ap, ◌∙◌, some, [], ◌++◌, arith, length, length-append, take-append, drop-append,
  replicate, copy_at, copy_at_fill, append-nil, All-append,
}
use sneakernet.Integers.{IsI64, to_u64, to_u64-lt, from_u64-to_u64}
use sneakernet.Bytes.{IsByte, put_be, get_be, length-put_be, put_be-IsBytes, get_be-put_be}
use sneakernet.Base64
use sneakernet.Base64.RoundTrip.{decode-encode}
use sneakernet.Blockstore.{PageCursor, IsId, encode_cursor, decode_cursor}

-- The buffer behind the token is the time followed by the ID.
encode_cursor-append :
    (c : PageCursor)
    → IsId c.id
    → encode_cursor c ≡ Base64.encode (put_be 8 (to_u64 c.created_at) ++ c.id)
unfolding encode_cursor
encode_cursor-append c h =
    let time = put_be 8 (to_u64 c.created_at) in
    let size : length time ≡ 8 = length-put_be 8 (to_u64 c.created_at) in
    ap Base64.encode (
      ap (λ b. copy_at 8 b c.id) (copy_at_fill [] time 0 40 32 0 refl (omega arith))
      ∙ copy_at_fill time c.id 0 32 0 8 size (omega (arith, h.size))
      ∙ (unfold replicate in append-nil _))

-- The token of a cursor with an `int64` time and an ID of 32 bytes decodes to the cursor.
pub decode_cursor-encode_cursor :
    (c : PageCursor) → IsI64 c.created_at → IsId c.id → decode_cursor (encode_cursor c) ≡ some c
unfolding decode_cursor
decode_cursor-encode_cursor c ht hid =
    let time = put_be 8 (to_u64 c.created_at) in
    let size : length time ≡ 8 = length-put_be 8 (to_u64 c.created_at) in
    let bytes = All-append IsByte time c.id (put_be-IsBytes 8 _).bytes hid.bytes in
    let whole : length (time ++ c.id) ≡ 40 = length-append time c.id ∙ omega (arith, hid.size) in
    let read : get_be time ≡ to_u64 c.created_at = get_be-put_be 8 _ (to_u64-lt c.created_at) in
    rw (
      encode_cursor-append c hid,
      decode-encode (time ++ c.id) bytes,
      whole,
      take-append time c.id size,
      drop-append time c.id size,
      read,
      from_u64-to_u64 c.created_at ht,
    )
