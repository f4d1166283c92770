-- ===== src/Bluetooth/Session.antt =====
-- A whole exchange: what the sender writes, the receiver stores.
use sneakernet.Prelude.{
  ℕ, zero, suc, ◌+◌, ◌-◌, ◌<◌, ◌≡◌, refl, sym, ap, ◌∙◌, Bool, true, false, Option, none, some,
  ◌>>=◌, >>=-eq-some, List, [], ◌∷◌, ◌++◌, arith, if◌then◌else◌, length, take-append, drop-append,
  All, append_assoc, length-append,
}
use sneakernet.Integers.{pos}
use sneakernet.Blockstore.{BlockRef}
use sneakernet.Blockstore.Paging.{Lister, all_pages}
use sneakernet.Blockstore.Badger.{Answer, answer, not_found, failed}
use sneakernet.Relay.Bloom.{Bloom, new_bloom, has, add_refs, to_bytes, zero_time}
use sneakernet.Relay.Bloom.Member.{
  IsBloom, new_bloom-IsBloom, add_refs-IsBloom, from_bytes-to_bytes, length-to_bytes,
}
use sneakernet.Relay.Bloom.Store.{next_pages, bloom_of_store-all_pages}
use sneakernet.Bluetooth.{
  Listing, frame_bloom, frame_block, frame_done, tag_bluetooth, write_frame, Receiver, finished,
  run_recv, block_frame, send_block, send_refs, send_page, send_pages, sent, run_send,
}
use sneakernet.Relay.Bloom.Lacking.{
  Block, IsBlock, found_block, lacking, lacking-All, copy_whole, block_body,
}
use sneakernet.Bluetooth.Frames.{read_frame-write_frame}

-- One frame for each block.
abbrev frames : List Block → List ℕ
frames [] = []
frames (b ∷ bs) = block_frame b.0 b.1 ++ frames bs

frames_step :
    (h : Bool) (a : Answer Block) (bs : List Block)
    → (if h then [] else send_block a) ++ frames bs ≡ frames (found_block h a ++ bs)
frames_step true (answer b) bs = refl
frames_step true not_found bs = refl
frames_step true (failed) bs = refl
frames_step false (answer b) bs = refl
frames_step false not_found bs = refl
frames_step false (failed) bs = refl

module _ (get : List ℕ → Answer Block) (peer : Bloom) where
  send_refs-frames :
      (refs : List BlockRef) → send_refs get peer refs ≡ frames (lacking get peer refs)
  unfolding send_refs lacking
  send_refs-frames [] = refl
  send_refs-frames (ref ∷ refs) =
      let head = if has peer ref.id ref.work_factor then [] else send_block (get ref.id) in
      ap (λ t. head ++ t) (send_refs-frames refs)
      ∙ frames_step (has peer ref.id ref.work_factor) (get ref.id) (lacking get peer refs)

  send_refs-append :
      (xs ys : List BlockRef)
      → send_refs get peer (xs ++ ys) ≡ send_refs get peer xs ++ send_refs get peer ys
  unfolding send_refs
  send_refs-append [] ys = refl
  send_refs-append (x ∷ xs) ys =
      let head = if has peer x.id x.work_factor then [] else send_block (get x.id) in
      ap (λ t. head ++ t) (send_refs-append xs ys)
      ∙ sym (append_assoc head (send_refs get peer xs) (send_refs get peer ys))

  module _ (before during : Listing) where
    abbrev list : Lister
    list token = during token 100 (pos 0) zero_time

    abbrev running : List ℕ → Bool
    running token = false

    page_step :
        (f : List ℕ → Option (List ℕ)) (g : List ℕ → Option (List BlockRef))
        → ((token : List ℕ) (refs : List BlockRef)
            → g token ≡ some refs
            → f token ≡ some (send_refs get peer refs))
        → (page : Option (List ℕ × List BlockRef)) (refs : List BlockRef)
        → (page >>= next_pages g) ≡ some refs
        → send_page before during get running f peer page ≡ some (send_refs get peer refs)
    page_step f g same none refs h = cc
    page_step f g same (some ([], found)) refs h =
        let e : found ≡ refs = cc h in ap (λ t. some (send_refs get peer t)) e
    page_step f g same (some (c ∷ next, found)) refs h =
        let (more, listed, joined) = >>=-eq-some (g (c ∷ next)) _ h in
        let e : found ++ more ≡ refs = cc joined in
        rw (same (c ∷ next) more listed)
          (ap some (sym (send_refs-append found more)) ∙ ap (λ t. some (send_refs get peer t)) e)

    -- Sending page by page is sending all that is listed.
    send_pages-all_pages :
        (fuel : ℕ) (token : List ℕ) (refs : List BlockRef)
        → all_pages list fuel token ≡ some refs
        → send_pages before during get running peer fuel token ≡ some (send_refs get peer refs)
    unfolding send_pages all_pages
    send_pages-all_pages zero token refs h = cc
    send_pages-all_pages (suc fuel) token refs h =
        page_step (send_pages before during get running peer fuel) (all_pages list fuel)
          (send_pages-all_pages fuel) (list token) refs h

-- The store after a run of puts.
abbrev pub absorb {ℓ} : {S : Type ℓ} → (S → List ℕ → List ℕ → ℕ → S) → S → List Block → S
absorb put s [] = s
absorb put s (b ∷ bs) = absorb put (put s b.0 b.1 tag_bluetooth) bs

module _ {S : Type 0} (put : S → List ℕ → List ℕ → ℕ → S) where
  -- The receiver takes one block frame.
  recv_block :
      (fuel : ℕ) (b : Block) (rest : List ℕ) (r : Receiver S)
      → IsBlock b
      → run_recv put (suc fuel) (block_frame b.0 b.1 ++ rest) r
        ≡ run_recv put fuel rest (record r { store = put r.store b.0 b.1 tag_bluetooth })
  unfolding run_recv
  recv_block fuel b rest r h =
      let size : length (b.0 ++ b.1) ≡ 4100 = omega (arith, length-append b.0 b.1, h.0, h.1) in
      rw (
        block_body b h,
        read_frame-write_frame frame_block (b.0 ++ b.1) rest (omega (arith, size)),
        run_recv,
        size,
        take-append b.0 b.1 h.0,
        drop-append b.0 b.1 h.0,
        copy_whole 4 b.0 h.0,
        copy_whole 4096 b.1 h.1,
      )

  recv_blocks :
      (fuel n : ℕ) (bs : List Block) (rest : List ℕ) (r : Receiver S)
      → fuel ≡ length bs + n
      → All IsBlock bs
      → run_recv put fuel (frames bs ++ rest) r
        ≡ run_recv put n rest (record r { store = absorb put r.store bs })
  recv_blocks fuel n [] rest r e h =
      ap (λ k. run_recv put k rest r) (let same : fuel ≡ n = omega arith in same)
  recv_blocks zero n (b ∷ bs) rest r e h = absurd (omega arith)
  recv_blocks (suc fuel) n (b ∷ bs) rest r e h =
      ap (λ t. run_recv put (suc fuel) t r) (append_assoc (block_frame b.0 b.1) (frames bs) rest)
      ∙ recv_block fuel b (frames bs ++ rest) r h.0
      ∙ recv_blocks fuel n bs rest (record r { store = put r.store b.0 b.1 tag_bluetooth })
          (omega arith) h.1

  recv_bloom :
      (fuel : ℕ) (b : Bloom) (rest : List ℕ) (s : S)
      → IsBloom b
      → run_recv put
          (suc fuel)
          (write_frame frame_bloom (to_bytes b) ++ rest)
          (record { store = s; blooms = []; closed = false })
        ≡ run_recv put fuel rest (record { store = s; blooms = b ∷ []; closed = false })
  unfolding run_recv
  recv_bloom fuel b rest s h = rw (
    read_frame-write_frame frame_bloom (to_bytes b) rest (omega (arith, length-to_bytes b h)),
    run_recv,
    from_bytes-to_bytes b h,
  )

  recv_done :
      (fuel : ℕ) (rest : List ℕ) (r : Receiver S)
      → run_recv put (suc fuel) (write_frame frame_done [] ++ rest) r ≡ some (finished, r, rest)
  unfolding run_recv
  recv_done fuel rest r = rw (read_frame-write_frame frame_done [] rest (omega arith), run_recv)

  -- What the store lists while the filter is built, and what it lists behind the peer's filter.
  module _ (before during : Listing) (get : List ℕ → Answer Block) (peer : Bloom)
      (mine refs : List BlockRef) where
    abbrev ours : Bloom
    ours = add_refs new_bloom mine

    abbrev missing_blocks : List Block
    missing_blocks = lacking get peer refs

    abbrev stream : List ℕ
    stream =
        write_frame frame_bloom (to_bytes ours)
        ++ (frames missing_blocks ++ write_frame frame_done [])

    run_send-stream :
        (bloom_pages pages : ℕ)
        → all_pages (λ token. before token 500 (pos 0) zero_time) bloom_pages [] ≡ some mine
        → all_pages (λ token. during token 100 (pos 0) zero_time) pages [] ≡ some refs
        → run_send before during get (λ token. false) bloom_pages pages (sent peer)
          ≡ some (stream, finished)
    unfolding run_send
    run_send-stream bloom_pages pages held listed = rw (
      bloom_of_store-all_pages (λ token. before token 500 (pos 0) zero_time) bloom_pages mine held,
      send_pages-all_pages get peer before during pages [] refs listed,
      send_refs-frames get peer refs,
    )

    run_recv-stream :
        (n : ℕ) (rest : List ℕ) (s : S)
        → All IsBlock missing_blocks
        → length missing_blocks + 1 < n
        → run_recv put n (stream ++ rest) (record { store = s; blooms = []; closed = false })
          ≡ some (
            finished,
            record { store = absorb put s missing_blocks; blooms = ours ∷ []; closed = false },
            rest,
          )
    run_recv-stream zero rest s sized enough = absurd (omega arith)
    run_recv-stream (suc n) rest s sized enough =
        let start = write_frame frame_bloom (to_bytes ours) in
        let done = write_frame frame_done [] in
        let well = add_refs-IsBloom mine new_bloom new_bloom-IsBloom in
        let after : Receiver S = record { store = s; blooms = ours ∷ []; closed = false } in
        let left = n - length missing_blocks - 1 in
        ap (λ t. run_recv put (suc n) t (record { store = s; blooms = []; closed = false }))
          (append_assoc start (frames missing_blocks ++ done) rest
            ∙ ap (λ t. start ++ t) (append_assoc (frames missing_blocks) done rest))
        ∙ recv_bloom n ours (frames missing_blocks ++ (done ++ rest)) s well
        ∙ recv_blocks n (suc left) missing_blocks (done ++ rest) after (omega arith) sized
        ∙ recv_done left rest (record after { store = absorb put s missing_blocks })

    -- The store may list other blocks behind the peer's filter, in pages of 100, than it listed for the
    -- sender's own filter, in pages of 500. When both listings end, every block that `Get` returns has
    -- its sizes, and the sender's context lasts: the sender finishes, and a receiver with more rounds
    -- than there are block frames and one that reads what it wrote finishes too. The receiver has then
    -- passed on one filter, that of all that was listed first, and has put, in their order, exactly
    -- those blocks listed behind the peer's filter that `Get` returns and that the peer's filter does
    -- not answer for.
    pub run_recv-run_send :
        (bloom_pages pages n : ℕ) (rest : List ℕ) (s : S)
        → ((id : List ℕ) (b : Block) → get id ≡ answer b → IsBlock b)
        → all_pages (λ token. before token 500 (pos 0) zero_time) bloom_pages [] ≡ some mine
        → all_pages (λ token. during token 100 (pos 0) zero_time) pages [] ≡ some refs
        → length missing_blocks + 1 < n
        → (bytes : List ℕ) × (run_send before during get
              (λ token. false)
              bloom_pages
              pages
              (sent peer)
            ≡ some (bytes, finished))
          × (run_recv put n (bytes ++ rest) (record { store = s; blooms = []; closed = false })
              ≡ some (
                finished,
                record { store = absorb put s missing_blocks; blooms = ours ∷ []; closed = false },
                rest,
              ))
    run_recv-run_send bloom_pages pages n rest s sized held listed enough = (
      stream,
      run_send-stream bloom_pages pages held listed,
      run_recv-stream n rest s (lacking-All get peer sized refs) enough,
    )
