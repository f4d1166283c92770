-- ===== src/Tests/Remote/Runs.antt =====
-- Runs of the relay and its client.
use sneakernet.Prelude.{
  ℕ, ◌≡◌, refl, some, Option, Bool, false, List, [], arith, subst, All, replicate, take, get_or,
  drop, slice,
}
use sneakernet.Integers.{pos, from_u64, to_u64, sub_i64}
use sneakernet.Bytes.{put_be, get_be, put_be-IsBytes, zeros-IsBytes}
use sneakernet.Blockstore.{BlockRef, IsId}
use sneakernet.Blockstore.Paging.{all_pages}
use sneakernet.Blockstore.Pow.{compute_id}
use sneakernet.Blockstore.Badger.{answer}
use sneakernet.Blockstore.Badger.Listing.Entries.{passing}
use sneakernet.Blockstore.Badger.Listing.Complete.{all_pages-list_page}
use sneakernet.Relay.Bloom.{new_bloom, add_refs, zero_time}
use sneakernet.Relay.Bloom.Member.{new_bloom-IsBloom}
use sneakernet.Relay.Bloom.Lacking.{Block, IsBlock, lacking}
use sneakernet.Relay.Http.{Request, Reply}
use sneakernet.Relay.Server.{Server, Node, new_server, max_floor}
use sneakernet.Relay.Client.{Call, fetch, upload, delta, pull, push}
use sneakernet.Relay.Remote.{wire, unknown, fetch-get}
use sneakernet.Relay.Remote.Calls.{tag, submitted, upload-put, delta-unknown, pow_limit}
use sneakernet.Relay.Pull.{outcome, pull-lacking}
use sneakernet.Relay.Push.{offered, submit_all, finish, push-submit_all}
use sneakernet.Tests.{toy, stamp, payload, stamp-IsStamp, payload-IsPayload}
use sneakernet.Tests.Listing.{entries, three-Ascending, entries-IsEntry}
use sneakernet.Tests.Remote.{codecs, addresses, messages, shelf}

abbrev server : Server (List ℕ)
server = new_server (pos 3)

abbrev node : Node (List Block) (List ℕ)
node = record { store = []; peers = [] }

abbrev block : Block
block = (stamp, payload)

block-IsBlock : IsBlock block
block-IsBlock = (stamp-IsStamp.size, payload-IsPayload.size)

compute_id-IsId : (b : List ℕ) → IsId (compute_id toy b)
unfolding compute_id
compute_id-IsId b = toy.sha256-IsBytes b

abbrev line :
    Node (List Block) (List ℕ) → Request → Call (Node (List Block) (List ℕ)) (Option Reply)
line = wire shelf codecs toy addresses messages server 5 []

sized : (id : List ℕ) (b : Block) → shelf.get [] id ≡ answer b → IsBlock b
sized id b e = let same : block ≡ b = cc e in subst IsBlock same block-IsBlock

fetch-get_example : fetch codecs line node (replicate 32 0) ≡ (node, shelf.get [] (replicate 32 0))
fetch-get_example =
    fetch-get shelf codecs toy addresses messages server 5 [] node (replicate 32 0)
      (zeros-IsBytes 32) (sized (replicate 32 0))

put_named :
    (s : List Block) (b : Block) (t : ℕ) (id : List ℕ)
    → (shelf.put s b.0 b.1 t).1 ≡ some id
    → IsId id
put_named s b t id e =
    let same : compute_id toy b.1 ≡ id = cc e in subst IsId same (compute_id-IsId b.1)

upload-put_example :
    upload codecs line node stamp payload
    ≡ submitted shelf codecs toy addresses messages server 5 [] node block
upload-put_example =
    upload-put shelf codecs toy addresses messages server 5 [] node block block-IsBlock
      (put_named [] block (tag shelf codecs toy addresses messages server 5 []))

abbrev refs : List BlockRef
refs = passing (pos 3) (pos 0) entries

listed :
    all_pages (λ token. shelf.list [] token 500 (max_floor (pos 2) (pos 3)) (pos 0)) 5 []
    ≡ some refs
listed =
    all_pages-list_page entries 499 (pos 3) (pos 0) 5 three-Ascending entries-IsEntry (omega arith)
      (omega arith)

refs-All : All (λ r. IsId r.id) refs
unfolding passing put_be get_be take drop slice get_or replicate from_u64
refs-All = (put_be-IsBytes 32 1, (put_be-IsBytes 32 2, tt))

delta-unknown_example :
    delta codecs line node new_bloom (pos 2) (pos 0) ≡ (node, some (unknown new_bloom refs))
delta-unknown_example =
    delta-unknown shelf codecs toy addresses messages server 5 [] node new_bloom (pos 2) (pos 0)
      refs new_bloom-IsBloom refs-All listed

-- The client's own listing is the same.
ours :
    all_pages (λ token. shelf.list [] token 500 (pos 0) zero_time) 4 []
    ≡ some (passing (pos 0) (pos 0) entries)
unfolding passing
ours =
    all_pages-list_page entries 499 (pos 0) zero_time 4 three-Ascending entries-IsEntry
      (omega arith) (omega arith)

puts : (s : List Block) (b : Block) → (shelf.put s b.0 b.1 3).1 ≡ some (compute_id toy b.1)
puts s b = refl

pull-lacking_example :
    pull codecs line shelf (λ id. false) 3 4 [] node (pos 2) (pos 0)
    ≡ some (
        outcome shelf codecs toy addresses messages server 5 [] shelf 3
          (λ b. compute_id toy b.1)
          puts
          node
          sized
          []
          (lacking (shelf.get []) (add_refs new_bloom (passing (pos 0) (pos 0) entries)) refs)
          [])
pull-lacking_example =
    pull-lacking shelf codecs toy addresses messages server 5 [] shelf 3 (λ b. compute_id toy b.1)
      puts node sized 4 [] (pos 2) (pos 0) (passing (pos 0) (pos 0) entries) refs ours listed
      refs-All

limit_run : pow_limit shelf codecs toy addresses messages server 5 [] [] ≡ some (pos 3)
unfolding pow_limit sub_i64 to_u64 from_u64
limit_run = refl

offered_refs :
    all_pages (λ token. shelf.list [] token 100 (max_floor (pos 1) (pos 3)) (pos 0)) 5 []
    ≡ some refs
offered_refs =
    all_pages-list_page entries 99 (pos 3) (pos 0) 5 three-Ascending entries-IsEntry (omega arith)
      (omega arith)

abbrev skip : List ℕ → Bool
skip id = false

push-submit_all_example :
    push codecs line shelf (λ token. false) skip 5 [] node (pos 1) (pos 0)
    ≡ some (
        finish shelf codecs toy addresses messages server 5 [] shelf put_named [] sized skip (
          submit_all shelf codecs toy addresses messages server 5 [] shelf put_named [] sized skip
            node 0
            (offered skip (shelf.get []) refs)))
push-submit_all_example =
    push-submit_all shelf codecs toy addresses messages server 5 [] shelf put_named [] sized skip
      node 5 (pos 1) (pos 0) (pos 3) refs limit_run offered_refs
