-- ===== src/Relay/Store.antt =====
-- A relay over the Badger block store.
use sneakernet.Prelude.{
  ℕ, ◌/◌, ◌^◌, ◌<◌, ◌≡◌, Option, none, some, Option-cases, List, inl, inr, All,
}
use sneakernet.Integers.{ℤ}
use sneakernet.Blockstore.Pow.{Hashes, compute_id}
use sneakernet.Blockstore.Kv.{Kv, second}
use sneakernet.Blockstore.Badger.{get_block}
use sneakernet.Blockstore.Badger.Listing.{list_blocks}
use sneakernet.Blockstore.Badger.Indexed.{IsIndexed}
use sneakernet.Blockstore.Badger.Evict.{Settings, put}
use sneakernet.Blockstore.Badger.Evict.Result.{put-IsIndexed}
use sneakernet.Relay.Http.{Backend, Codecs, Addresses, Request}
use sneakernet.Relay.Server.{Server, Messages, Node, upload_tag}
use sneakernet.Relay.Kept.{serve_all, serve_all-Kept, HasBytes}

module _ (kv : Kv) (s : Settings) (hashes : Hashes) (limit now : ℕ) (median_wf : ℤ) where
  open kv use {Db}

  abbrev put_answer : Db → List ℕ → Option Db → Db × Option (List ℕ)
  put_answer db payload none = (db, none)
  put_answer db payload (some db') = (db', some (compute_id hashes payload))

  -- `BadgerStore` as the relay uses it, at one time; `MedianWorkFactor` answers the number that was
  -- computed last.
  abbrev pub badger : Backend Db
  badger = record {
    get = λ db id. get_block kv hashes db now id;
    put = λ db stamp payload tag.
        put_answer db payload (put kv s hashes limit db now stamp payload tag);
    list = λ db token size floor since. list_blocks kv db now token size floor since;
    median = some (λ db. some median_wf);
  }

  -- A relay over the Badger store keeps blocks and traversal entries in step, its storage limit
  -- included: whatever requests with bodies of bytes come, if the listings that they ask for end
  -- within the fuel, `IsIndexed` holds of its store after them if it held before. The time is one
  -- that an `int64` holds.
  pub serve_all-IsIndexed :
      {P : Type 0} (codecs : Codecs) (addresses : Addresses) (messages : Messages)
      (server : Server P) (fuel : ℕ) (requests : List (List ℕ × Request)) (n n' : Node Db P)
      → now / second < 2 ^ 63
      → serve_all badger codecs hashes addresses messages server fuel n requests ≡ some n'
      → All (λ r. HasBytes r.1) requests
      → IsIndexed kv n.store
      → IsIndexed kv n'.store
  serve_all-IsIndexed codecs addresses messages server fuel requests n n' era run bytes =
      serve_all-Kept badger codecs hashes addresses messages server fuel (IsIndexed kv)
        (λ db remote stamp payload hs hp high ix.
          let tag = upload_tag badger codecs hashes addresses messages server remote in
          elim (Option-cases (put kv s hashes limit db now stamp payload tag)) [
            | inl e ↦ rw e ix
            | inr (db', e) ↦
                rw e (put-IsIndexed kv s hashes limit db db' now stamp payload tag hs hp era ix e)
          ])
        requests n n' run bytes
