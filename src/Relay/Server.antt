-- ===== src/Relay/Server.antt =====
-- transport/relay/server.go: the relay's handlers. The web application's routes are not among them.
use sneakernet.Prelude.{
  ℕ, zero, suc, Option, none, some, ◌>>=◌, ◌||◌, List, [], ◌∷◌, ◌++◌, ◌==◌, if◌then◌else◌, length,
  take, drop, copy, replicate,
}
use sneakernet.Hex
use sneakernet.Integers.{ℤ, pos, ltb_ℤ, sub_i64}
use sneakernet.Blockstore.{BlockRef}
use sneakernet.Blockstore.Paging.{Lister}
use sneakernet.Blockstore.Pow.{Hashes, work_factor}
use sneakernet.Blockstore.Badger.{Answer, answer, not_found, failed}
use sneakernet.Relay.Bloom.{Bloom, has, from_bytes}
use sneakernet.Relay.Http.{Backend, Codecs, DeltaRequest, Addresses, IpKind, Request, Reply}
use sneakernet.Relay.Http.Request.{
  get_block, post_block, post_delta, get_pow_limit, get_peers, post_hello, options,
}

abbrev pub tag_lan : ℕ
tag_lan = 1

abbrev pub tag_global : ℕ
tag_global = 3

-- `blockstore.StampSize + blockstore.PayloadSize`.
abbrev pub wire_size : ℕ
wire_size = 4100

-- Private, loopback and link-local addresses are local.
abbrev pub ip_tag : Option IpKind → ℕ
ip_tag none = tag_global
ip_tag (some ip) = if ip.private || (ip.loopback || ip.link_local) then tag_lan else tag_global

unfoldable pub tag_from_remote_addr : Addresses → List ℕ → ℕ
tag_from_remote_addr a addr = elim (a.host_of_addr addr) [
  | none ↦ ip_tag (a.parse_ip addr)
  | some host ↦ ip_tag (a.parse_ip host)
]

-- `Server`: the floor, the classifier of addresses if there is one, and the functions to read and to
-- extend the known peers, `P`, if they are set.
pub record Server (P : Type 0) : Type 0 where
  pub pow_floor : ℤ
  pub geoip : Option (List ℕ → ℕ)
  pub peer_source : Option (P → List (List ℕ))
  pub peer_adder : Option (P → List ℕ → P)

-- `NewServer`.
abbrev pub new_server : {P : Type 0} → ℤ → Server P
new_server pow_floor = record {
  pow_floor = pow_floor;
  geoip = none;
  peer_source = none;
  peer_adder = none;
}

-- The texts of the errors, by name.
pub record Messages : Type 0 where
  pub invalid_id : List ℕ
  pub missing_block : List ℕ
  pub internal_error : List ℕ
  pub bad_size : List ℕ
  pub insufficient_pow : List ℕ
  pub storage_error : List ℕ
  pub invalid_json : List ℕ
  pub invalid_bloom_encoding : List ℕ
  pub bloom_size : List ℕ
  pub store_error : List ℕ

-- What the handlers act on.
pub record Node (S P : Type 0) : Type 0 where
  pub store : S
  pub peers : P

abbrev pub found_block : Messages → Answer (List ℕ × List ℕ) → Reply
found_block m (answer b) = record { status = 200; body = b.0 ++ b.1 }
found_block m not_found = record { status = 404; body = m.missing_block }
found_block m failed = record { status = 500; body = m.internal_error }

-- References that a filter does not answer for, as hexadecimal IDs.
unfoldable pub unknown_ids : Bloom → List BlockRef → List (List ℕ)
unknown_ids bloom [] = []
unknown_ids bloom (ref ∷ refs) =
    (if has bloom ref.id ref.work_factor then [] else Hex.encode ref.id ∷ [])
    ++ unknown_ids bloom refs

-- What the loop over the pages comes to: an error of the store, or the IDs.
abbrev pub delta_page :
    (List ℕ → Option (Option (List (List ℕ))))
    → Bloom
    → Option (List ℕ × List BlockRef)
    → Option (Option (List (List ℕ)))
delta_page more bloom none = some none
delta_page more bloom (some ([], refs)) = some (some (unknown_ids bloom refs))
delta_page more bloom (some (c ∷ next, refs)) =
    more (c ∷ next) >>= λ ids. some (ids >>= λ ids. some (unknown_ids bloom refs ++ ids))

-- The loop, from a token on; `none` is more pages than the fuel.
unfoldable pub delta_pages : Lister → Bloom → ℕ → List ℕ → Option (Option (List (List ℕ)))
delta_pages list bloom zero token = none
delta_pages list bloom (suc fuel) token =
    delta_page (delta_pages list bloom fuel) bloom (list token)

abbrev pub max_floor : ℤ → ℤ → ℤ
max_floor asked own = if ltb_ℤ asked own then own else asked

module _ {S P : Type 0} (store : Backend S) (codecs : Codecs) (hashes : Hashes)
    (addresses : Addresses) (messages : Messages) (server : Server P) where
  -- `serverError`.
  abbrev pub server_error : ℕ → List ℕ → Reply
  server_error status message = record { status = status; body = codecs.error message }

  abbrev pub get_decoded : S → Option (List ℕ) → Reply
  get_decoded s none = record { status = 400; body = messages.invalid_id }
  get_decoded s (some id) =
      if length id == 32
      then found_block messages (store.get s id)
      else record { status = 400; body = messages.invalid_id }

  unfoldable pub handle_get : S → List ℕ → Reply
  handle_get s id = get_decoded s (Hex.decode id)

  -- The tag of what a client at an address uploads.
  unfoldable pub upload_tag : List ℕ → ℕ
  upload_tag remote = elim (server.geoip) [
    | none ↦ tag_from_remote_addr addresses remote
    | some tag ↦ tag remote
  ]

  abbrev pub put_reply : ℕ → S × Option (List ℕ) → S × Reply
  put_reply wf (s, none) = (s, server_error 500 messages.storage_error)
  put_reply wf (s, some id) = (s, record { status = 200; body = codecs.stored (Hex.encode id) wf })

  abbrev pub put_checked : S → List ℕ → List ℕ → List ℕ → S × Reply
  put_checked s remote stamp payload =
      let wf = work_factor hashes stamp payload in
      if ltb_ℤ (pos wf) server.pow_floor
      then (s, server_error 403 messages.insufficient_pow)
      else put_reply wf (store.put s stamp payload (upload_tag remote))

  -- `handlePut`; the body is read up to one byte more than a block has.
  unfoldable pub handle_put : S → List ℕ → List ℕ → S × Reply
  handle_put s remote sent =
      let body = take (suc wire_size) sent in
      if length body == wire_size
      then put_checked s remote (copy (replicate 4 0) (take 4 body))
          (copy (replicate 4096 0) (drop 4 body))
      else (s, server_error 400 messages.bad_size)

  abbrev pub delta_reply : Option (List (List ℕ)) → Reply
  delta_reply none = server_error 500 messages.store_error
  delta_reply (some ids) = record { status = 200; body = codecs.ids ids }

  abbrev pub delta_bloom : S → ℕ → DeltaRequest → Option Bloom → Option Reply
  delta_bloom s fuel req none = some (server_error 400 messages.bloom_size)
  delta_bloom s fuel req (some bloom) =
      let floor = max_floor req.pow_floor server.pow_floor in
      delta_pages (λ token. store.list s token 500 floor req.since) bloom fuel [] >>= λ ids.
      some (delta_reply ids)

  abbrev pub delta_decoded : S → ℕ → DeltaRequest → Option (List ℕ) → Option Reply
  delta_decoded s fuel req none = some (server_error 400 messages.invalid_bloom_encoding)
  delta_decoded s fuel req (some raw) = delta_bloom s fuel req (from_bytes raw)

  abbrev pub delta_read : S → ℕ → Option DeltaRequest → Option Reply
  delta_read s fuel none = some (server_error 400 messages.invalid_json)
  delta_read s fuel (some req) = delta_decoded s fuel req (codecs.read_base64 req.bloom)

  -- `none` is more pages than the fuel.
  unfoldable pub handle_delta : S → ℕ → List ℕ → Option Reply
  handle_delta s fuel body = delta_read s fuel (codecs.read_delta body)

  abbrev pub median_reply : Option ℤ → Reply
  median_reply none = server_error 500 messages.store_error
  median_reply (some median) = record { status = 200; body = codecs.floor (sub_i64 median (pos 1)) }

  unfoldable pub handle_pow_limit : S → Reply
  handle_pow_limit s = elim (store.median) [
    | none ↦ record { status = 200; body = codecs.floor server.pow_floor }
    | some median ↦ median_reply (median s)
  ]

  unfoldable pub known_peers : P → List (List ℕ)
  known_peers peers = elim (server.peer_source) [ none ↦ [] | some source ↦ source peers ]

  unfoldable pub handle_peers : P → Reply
  handle_peers peers = record { status = 200; body = codecs.peers (known_peers peers) }

  -- An empty URL is not announced.
  unfoldable pub announce : P → List ℕ → P
  announce peers [] = peers
  announce peers (c ∷ url) = elim (server.peer_adder) [
    | none ↦ peers
    | some adder ↦ adder peers (c ∷ url)
  ]

  unfoldable pub handle_hello : P → List ℕ → P × Reply
  handle_hello peers body =
      let peers' = announce peers (codecs.read_hello body) in
      (peers', record { status = 200; body = codecs.peers (known_peers peers') })

  -- `ServeHTTP` for a client at an address; `none` is more pages than the fuel.
  unfoldable pub serve : ℕ → List ℕ → Node S P → Request → Option (Node S P × Reply)
  serve fuel remote n (get_block id) = some (n, handle_get n.store id)
  serve fuel remote n (post_block body) =
      let done = handle_put n.store remote body in some (record n { store = done.0 }, done.1)
  serve fuel remote n (post_delta body) =
      handle_delta n.store fuel body >>= λ reply. some (n, reply)
  serve fuel remote n get_pow_limit = some (n, handle_pow_limit n.store)
  serve fuel remote n get_peers = some (n, handle_peers n.peers)
  serve fuel remote n (post_hello body) =
      let done = handle_hello n.peers body in some (record n { peers = done.0 }, done.1)
  serve fuel remote n options = some (n, record { status = 204; body = [] })
