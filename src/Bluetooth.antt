-- ===== src/Bluetooth.antt =====
-- transport/bluetooth/session.go: the frames, the sender and the receiver of a block exchange.
pub mod Frames
pub mod Session
use sneakernet.Prelude.{
  ℕ, zero, suc, ◌+◌, ◌%◌, ◌^◌, Bool, true, false, Option, none, some, ◌>>=◌, List, [], ◌∷◌, ◌++◌,
  ltb, leb, ◌==◌, if◌then◌else◌, length, get_or, set, take, drop, copy, copy_at, replicate,
}
use sneakernet.Integers.{ℤ, pos}
use sneakernet.Bytes.{put_be, get_be}
use sneakernet.Blockstore.{BlockRef}
use sneakernet.Blockstore.Badger.{Answer, answer, not_found}
use sneakernet.Relay.Bloom.{Bloom, has, to_bytes, from_bytes, bloom_of_store, zero_time}

abbrev pub frame_bloom : ℕ
frame_bloom = 1

abbrev pub frame_block : ℕ
frame_block = 2

abbrev pub frame_done : ℕ
frame_done = 3

abbrev pub max_frame_len : ℕ
max_frame_len = 1_048_576

abbrev pub block_frame_size : ℕ
block_frame_size = 4100

abbrev pub tag_bluetooth : ℕ
tag_bluetooth = 4

-- The bytes that a call writes; the writer accepts them.
unfoldable pub write_frame : ℕ → List ℕ → List ℕ
write_frame ftype body =
    let header = replicate 5 0 in
    let header = set header 0 ftype in
    let header = copy_at 1 header (put_be 4 (length body % 2 ^ 32)) in
    if ltb 0 (length body) then header ++ body else header

pub record Frame : Type 0 where
  pub ftype : ℕ
  pub body : List ℕ
  pub rest : List ℕ

-- `io.ReadFull` of `n` bytes: those bytes and the stream behind them.
unfoldable pub read_full : ℕ → List ℕ → Option (List ℕ × List ℕ)
read_full n stream = if leb n (length stream) then some (take n stream, drop n stream) else none

abbrev pub read_body : ℕ → ℕ → List ℕ → Option Frame
read_body ftype size stream =
    if ltb max_frame_len size
    then none
    else if size == 0
    then some (record { ftype = ftype; body = []; rest = stream })
    else read_full size stream >>= λ got.
        some (record { ftype = ftype; body = got.0; rest = got.1 })

-- `none` is an error: the stream ends, or the frame is too large.
unfoldable pub read_frame : List ℕ → Option Frame
read_frame stream =
    read_full 5 stream >>= λ got. read_body (get_or got.0 0 0) (get_be (drop 1 got.0)) got.1

-- The channel of filters: what was sent on it, and whether it was closed.
pub record Receiver (S : Type 0) : Type 0 where
  pub store : S
  pub blooms : List Bloom
  pub closed : Bool

pub data Outcome : Type 0 where
  finished failed : Outcome

-- The end of a run: its outcome, the receiver, and what is left of the stream.
abbrev pub Received : Type 0 → Type 0
Received S = Outcome × Receiver S × List ℕ

-- `put` is `store.Put`, its answers dropped.
module _ {S : Type 0} (put : S → List ℕ → List ℕ → ℕ → S) where
  abbrev close : Receiver S → Receiver S
  close r = record r { closed = true }

  abbrev close_undelivered : Receiver S → Receiver S
  close_undelivered r = elim (r.blooms) [ [] ↦ close r | b ∷ bs ↦ r ]

  abbrev on_bloom :
      (Receiver S → Option (Received S)) → Receiver S → List ℕ → Option Bloom → Option (Received S)
  on_bloom more r rest none = some (failed, close r, rest)
  on_bloom more r rest (some pb) = more (record r { blooms = r.blooms ++ pb ∷ [] })

  abbrev on_block : Receiver S → List ℕ → Receiver S
  on_block r body =
      let stamp = copy (replicate 4 0) (take 4 body) in
      let payload = copy (replicate 4096 0) (drop 4 body) in
      record r { store = put r.store stamp payload tag_bluetooth }

  abbrev on_frame : (Receiver S → Option (Received S)) → Receiver S → Frame → Option (Received S)
  on_frame more r f =
      if f.ftype == frame_bloom
      then on_bloom more r f.rest (from_bytes f.body)
      else if f.ftype == frame_block
      then (if length f.body == block_frame_size
          then more (on_block r f.body)
          else some (failed, r, f.rest))
      else if f.ftype == frame_done
      then some (finished, r, f.rest)
      else some (failed, r, f.rest)

  -- The loop of `runRecv`; `none` when it is still running after so many frames.
  unfoldable pub run_recv : ℕ → List ℕ → Receiver S → Option (Received S)
  run_recv zero stream r = none
  run_recv (suc fuel) stream r = elim (read_frame stream) [
    | none ↦ some (failed, close_undelivered r, stream)
    | some f ↦ on_frame (run_recv fuel f.rest) r f
  ]

-- What ends the wait for the peer's filter.
pub data Peer : Type 0 where
  cancelled hung_up : Peer
  sent : Bloom → Peer

abbrev pub block_frame : List ℕ → List ℕ → List ℕ
block_frame stamp payload =
    let frame = replicate block_frame_size 0 in
    let frame = copy_at 0 frame stamp in
    let frame = copy_at 4 frame payload in write_frame frame_block frame

abbrev pub send_block : Answer (List ℕ × List ℕ) → List ℕ
send_block (answer (stamp, payload)) = block_frame stamp payload
send_block _ = []

-- The loop over the references of a page. `get` is `store.Get`.
unfoldable pub send_refs : (List ℕ → Answer (List ℕ × List ℕ)) → Bloom → List BlockRef → List ℕ
send_refs get peer_bloom [] = []
send_refs get peer_bloom (ref ∷ refs) =
    (if has peer_bloom ref.id ref.work_factor then [] else send_block (get ref.id))
    ++ send_refs get peer_bloom refs

-- `store.ListBlocks`: a token, the number of references on a page, and the two floors.
abbrev pub Listing : Type 0
Listing = List ℕ → ℕ → ℤ → ℤ → Option (List ℕ × List BlockRef)

-- The store may change while the sender runs, since the receiver puts into it. `before` is
-- `store.ListBlocks` as it answers when the filter is built; `during` is what it answers, and `get`
-- what `store.Get` answers, behind the peer's filter, each when the loop asks. An ID that is listed
-- twice has one answer of `get`. `stopped` says whether the context has ended before the page of a
-- token.
module _ (before during : Listing) (get : List ℕ → Answer (List ℕ × List ℕ))
    (stopped : List ℕ → Bool) where
  abbrev pub send_page :
      (List ℕ → Option (List ℕ)) → Bloom → Option (List ℕ × List BlockRef) → Option (List ℕ)
  send_page more peer_bloom none = some []
  send_page more peer_bloom (some ([], refs)) = some (send_refs get peer_bloom refs)
  send_page more peer_bloom (some (c ∷ next, refs)) =
      more (c ∷ next) >>= λ bytes. some (send_refs get peer_bloom refs ++ bytes)

  -- The loop over the pages, from a token on; `none` is more pages than the fuel.
  unfoldable pub send_pages : Bloom → ℕ → List ℕ → Option (List ℕ)
  send_pages peer_bloom zero token = none
  send_pages peer_bloom (suc fuel) token =
      let page = during token 100 (pos 0) zero_time in
      let rest = send_page (send_pages peer_bloom fuel) peer_bloom page in
      if stopped token then some [] else rest

  abbrev after_bloom : List ℕ → ℕ → Peer → Option (List ℕ × Outcome)
  after_bloom start fuel cancelled = some (start ++ write_frame frame_done [], failed)
  after_bloom start fuel hung_up = some (start, finished)
  after_bloom start fuel (sent peer_bloom) = send_pages peer_bloom fuel [] >>= λ blocks.
      some (start ++ (blocks ++ write_frame frame_done []), finished)

  -- The bytes that `runSend` writes and how it ends. `none`: the listing for the filter fails, or one
  -- of the two has more pages than its fuel.
  unfoldable pub run_send : ℕ → ℕ → Peer → Option (List ℕ × Outcome)
  run_send bloom_fuel fuel peer =
      bloom_of_store (λ token. before token 500 (pos 0) zero_time) bloom_fuel >>= λ bloom.
      after_bloom (write_frame frame_bloom (to_bytes bloom)) fuel peer
