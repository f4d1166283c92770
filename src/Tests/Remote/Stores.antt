-- ===== src/Tests/Remote/Stores.antt =====
-- A run of a relay over the Badger store.
use sneakernet.Prelude.{ℕ, ◌≡◌, refl, none, some, List, [], ◌∷◌, arith, All, replicate}
use sneakernet.Integers.{pos}
use sneakernet.Bytes.{zeros-IsBytes}
use sneakernet.Blockstore.Kv.Table.Scan.{table}
use sneakernet.Blockstore.Badger.Indexed.{IsIndexed}
use sneakernet.Relay.Http.{Backend, Request}
use sneakernet.Relay.Http.Request.{post_block, get_pow_limit}
use sneakernet.Relay.Server.{Server, Node, new_server, serve}
use sneakernet.Relay.Kept.{serve_all, HasBytes}
use sneakernet.Relay.Store.{badger, serve_all-IsIndexed}
use sneakernet.Tests.{toy}
use sneakernet.Tests.Store.{stored, stored-IsIndexed}
use sneakernet.Tests.Evictions.{settings}
use sneakernet.Tests.Remote.{codecs, addresses, messages}

abbrev server : Server (List ℕ)
server = new_server (pos 0)

abbrev before : Node table.Db (List ℕ)
before = record { store = stored; peers = [] }

-- An upload of an empty block, and a question for the floor.
abbrev requests : List (List ℕ × Request)
requests = ([], post_block (replicate 4100 0)) ∷ ([], get_pow_limit) ∷ []

abbrev relay : Backend table.Db
relay = badger table settings toy 100 7_000_000_000 (pos 4)

abbrev after : Node table.Db (List ℕ)
after = elim (serve_all relay codecs toy addresses messages server 3 before requests) [
  | some n ↦ n
  | none ↦ before
]

after_run : serve_all relay codecs toy addresses messages server 3 before requests ≡ some after
unfolding serve_all serve
after_run = refl

requests-All : All (λ r. HasBytes r.1) requests
requests-All = ((zeros-IsBytes 4100).bytes, (tt, tt))

serve_all-IsIndexed_example : IsIndexed table after.store
serve_all-IsIndexed_example =
    serve_all-IsIndexed table settings toy 100 7_000_000_000 (pos 4) codecs addresses messages
      server 3 requests before after (omega arith) after_run requests-All stored-IsIndexed
