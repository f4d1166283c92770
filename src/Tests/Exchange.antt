-- ===== src/Tests/Exchange.antt =====
-- Runs of the Bluetooth exchange.
use sneakernet.Prelude.{
  ℕ, ◌+◌, ◌<◌, ◌≡◌, refl, some, map, All-append, List, [], ◌∷◌, ◌++◌, arith, length, subst, take,
  drop, slice, get_or, replicate, false,
}
use sneakernet.Integers.{pos, from_u64}
use sneakernet.Bytes.{put_be, get_be}
use sneakernet.Blockstore.Paging.{all_pages}
use sneakernet.Bytes.Order.{Ascending, bytes_compare}
use sneakernet.Blockstore.Badger.{Answer, answer}
use sneakernet.Blockstore.Badger.Listing.{list_page}
use sneakernet.Blockstore.Badger.Listing.Entries.{Entry, IsEntry, entry_item, passing}
use sneakernet.Blockstore.Badger.Listing.Complete.{all_pages-list_page}
use sneakernet.Blockstore.{BlockRef}
use sneakernet.Relay.Bloom.{has, has_offsets, has_bit, slot, new_bloom, add_refs, zero_time}
use sneakernet.Bluetooth.{Listing, write_frame, read_frame, run_recv, run_send, sent, finished}
use sneakernet.Bluetooth.Frames.{read_frame-write_frame}
use sneakernet.Relay.Bloom.Lacking.{Block, IsBlock, lacking}
use sneakernet.Bluetooth.Session.{absorb, run_recv-run_send}
use sneakernet.Tests.{stamp, payload, stamp-IsStamp, payload-IsPayload}
use sneakernet.Tests.Listing.{
  entry, entry-IsEntry, entries, three, three-Ascending, entries-IsEntry,
}

read_frame-write_frame_example :
    read_frame (write_frame 2 (7 ∷ 8 ∷ []) ++ 9 ∷ [])
    ≡ some (record { ftype = 2; body = 7 ∷ 8 ∷ []; rest = 9 ∷ [] })
read_frame-write_frame_example = read_frame-write_frame 2 (7 ∷ 8 ∷ []) (9 ∷ []) (omega arith)

-- Behind the peer's filter the store lists one block more.
abbrev more : List Entry
more = entries ++ entry 7 3 1 ∷ []

abbrev before : Listing
before = list_page three

abbrev during : Listing
during = list_page (map entry_item more)

abbrev get : List ℕ → Answer Block
get id = answer (stamp, payload)

-- A store that is the list of what was put.
abbrev put : List Block → List ℕ → List ℕ → ℕ → List Block
put s a b tag = s ++ (a, b) ∷ []

abbrev own_refs : List BlockRef
own_refs = passing (pos 0) zero_time entries

abbrev refs : List BlockRef
refs = passing (pos 0) zero_time more

held : all_pages (λ token. before token 500 (pos 0) zero_time) 4 [] ≡ some own_refs
held =
    all_pages-list_page entries 499 (pos 0) zero_time 4 three-Ascending entries-IsEntry
      (omega arith) (omega arith)

more-Ascending : Ascending (map entry_item more)
unfolding bytes_compare put_be
more-Ascending = ((refl, (refl, (refl, tt))), ((refl, (refl, tt)), ((refl, tt), (tt, tt))))

listed : all_pages (λ token. during token 100 (pos 0) zero_time) 5 [] ≡ some refs
listed =
    all_pages-list_page more 99 (pos 0) zero_time 5 more-Ascending
      (All-append IsEntry entries (entry 7 3 1 ∷ []) entries-IsEntry
        (entry-IsEntry 7 3 1 (some 1) (omega arith) (omega arith), tt))
      (omega arith) (omega arith)

sized : (id : List ℕ) (b : Block) → get id ≡ answer b → IsBlock b
sized id b e =
    let same : (stamp, payload) ≡ b = cc e in
    subst IsBlock same (stamp-IsStamp.size, payload-IsPayload.size)

lacking_run : length (lacking get new_bloom refs) ≡ 4
unfolding lacking passing has has_offsets has_bit slot put_be get_be take drop slice get_or
    replicate from_u64
lacking_run = refl

few : length (lacking get new_bloom refs) + 1 < 6
few = omega (arith, lacking_run)

run_recv-run_send_example :
    (bytes : List ℕ) × (run_send before during get (λ token. false) 4 5 (sent new_bloom)
      ≡ some (bytes, finished))
    × (run_recv put 6 (bytes ++ []) (record { store = []; blooms = []; closed = false })
        ≡ some (
          finished,
          record {
            store = absorb put [] (lacking get new_bloom refs);
            blooms = add_refs new_bloom own_refs ∷ [];
            closed = false;
          },
          [],
        ))
run_recv-run_send_example =
    run_recv-run_send put before during get new_bloom own_refs refs 4 5 6 [] [] sized held listed
      few
