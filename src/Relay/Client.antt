-- ===== src/Relay/Client.antt =====
-- transport/relay/client.go: the relay's client, with `Pull` and `Push`.
use sneakernet.Prelude.{
  ℕ, zero, suc, ◌+◌, Option, none, some, ◌>>=◌, Bool, true, false, List, [], ◌∷◌, ◌++◌, ◌==◌,
  if◌then◌else◌, length, take, drop, copy, copy_at, replicate,
}
use sneakernet.Hex
use sneakernet.Integers.{ℤ}
use sneakernet.Blockstore.{BlockRef}
use sneakernet.Blockstore.Badger.{Answer, answer, not_found, failed}
use sneakernet.Relay.Bloom.{Bloom, to_bytes, bloom_of_store, zero_time}
use sneakernet.Relay.Http.{Backend, Codecs, DeltaRequest, Addresses, Request, Reply}
use sneakernet.Relay.Http.Request.{
  get_block, post_block, post_delta, get_pow_limit, get_peers, post_hello,
}
use sneakernet.Relay.Server.{tag_global, ip_tag, wire_size, max_floor}
use sneakernet.Integers.{pos}

-- A host name is not an address.
unfoldable pub tag_for_url : Addresses → List ℕ → ℕ
tag_for_url a url = elim (a.host_of_url url) [
  | none ↦ tag_global
  | some host ↦ ip_tag (a.parse_ip host)
]

-- The blocks and IDs behind a body.
abbrev pub block_of_body : List ℕ → Answer (List ℕ × List ℕ)
block_of_body received =
    let body = take wire_size received in
    if length body == wire_size
    then answer (copy (replicate 4 0) (take 4 body), copy (replicate 4096 0) (drop 4 body))
    else failed

abbrev pub sized_id : List ℕ → Option (List ℕ)
sized_id id = if length id == 32 then some id else none

unfoldable pub decode_id : List ℕ → Option (List ℕ)
decode_id text = Hex.decode text >>= sized_id

unfoldable pub decode_ids : List (List ℕ) → Option (List (List ℕ))
decode_ids [] = some []
decode_ids (text ∷ texts) = do id ← decode_id text; ids ← decode_ids texts; some (id ∷ ids)

abbrev pub upload_body : List ℕ → List ℕ → List ℕ
upload_body stamp payload = copy_at 4 (copy_at 0 (replicate 4100 0) stamp) payload

-- The result of a call behind which the world is `W`.
abbrev pub Call : Type 0 → Type 0 → Type 0
Call W A = W × A

module _ {W : Type 0} (codecs : Codecs) (send : W → Request → Call W (Option Reply)) where
  abbrev pub get_replied : Call W (Option Reply) → Call W (Answer (List ℕ × List ℕ))
  get_replied (w, none) = (w, failed)
  get_replied (w, some r) = (
    w,
    if r.status == 404 then not_found else if r.status == 200 then block_of_body r.body else failed,
  )

  -- `Get`.
  unfoldable pub fetch : W → List ℕ → Call W (Answer (List ℕ × List ℕ))
  fetch w id = get_replied (send w (get_block (Hex.encode id)))

  -- A reply other than 200 is an error, and so is a body that the reader refuses.
  abbrev pub accept {ℓ} : {A : Type ℓ} → (List ℕ → Option A) → Option Reply → Option A
  accept read none = none
  accept read (some r) = if r.status == 200 then read r.body else none

  -- `Put`: the ID that the relay answers, or none for an error.
  unfoldable pub upload : W → List ℕ → List ℕ → Call W (Option (List ℕ))
  upload w stamp payload =
      let (w', reply) = send w (post_block (upload_body stamp payload)) in
      (w', accept (λ body. codecs.read_id body >>= decode_id) reply)

  abbrev pub delta_body : Bloom → ℤ → ℤ → DeltaRequest
  delta_body bloom pow_floor since = record {
    bloom = codecs.base64 (to_bytes bloom);
    pow_floor = pow_floor;
    since = since;
  }

  unfoldable pub delta : W → Bloom → ℤ → ℤ → Call W (Option (List (List ℕ)))
  delta w bloom pow_floor since =
      let (w', reply) = send w (post_delta (codecs.delta (delta_body bloom pow_floor since))) in
      (w', accept (λ body. codecs.read_ids body >>= decode_ids) reply)

  -- With no URL of its own the client sends an empty object.
  abbrev pub hello_body : List ℕ → List ℕ
  hello_body [] = b'{' ∷ b'}' ∷ []
  hello_body (c ∷ url) = codecs.hello (c ∷ url)

  unfoldable pub hello : W → List ℕ → Call W (Option (List (List ℕ)))
  hello w my_url =
      let (w', reply) = send w (post_hello (hello_body my_url)) in
      (w', accept codecs.read_peers reply)

  unfoldable pub fetch_peers : W → Call W (Option (List (List ℕ)))
  fetch_peers w = let (w', reply) = send w get_peers in (w', accept codecs.read_peers reply)

  unfoldable pub fetch_pow_limit : W → Call W (Option ℤ)
  fetch_pow_limit w = let (w', reply) = send w get_pow_limit in (w', accept codecs.read_floor reply)

  module _ {L : Type 0} (local : Backend L) where
    -- What `Pull` leaves: the local store, the world, the stored IDs, and whether it ended without an
    -- error.
    pub record Pulled : Type 0 where
      pub store : L
      pub world : W
      pub stored : List (List ℕ)
      pub ok : Bool

    abbrev pub pull_put :
        (L → W → List (List ℕ) → Pulled) → W → List (List ℕ) → L × Option (List ℕ) → Pulled
    pull_put more w stored (s, none) = record { store = s; world = w; stored = stored; ok = false }
    pull_put more w stored (s, some id) = more s w (stored ++ id ∷ [])

    abbrev pub pull_got :
        (L → W → List (List ℕ) → Pulled)
        → ℕ
        → L
        → List (List ℕ)
        → Call W (Answer (List ℕ × List ℕ))
        → Pulled
    pull_got more tag s stored (w, answer b) = pull_put more w stored (local.put s b.0 b.1 tag)
    pull_got more tag s stored (w, _) = more s w stored

    -- The loop over the missing IDs. `stopped` says whether the context has ended before an ID.
    unfoldable pub pull_blocks :
        (List ℕ → Bool) → ℕ → List (List ℕ) → L → W → List (List ℕ) → Pulled
    pull_blocks stopped tag [] s w stored = record {
      store = s;
      world = w;
      stored = stored;
      ok = true;
    }
    pull_blocks stopped tag (id ∷ ids) s w stored =
        let got = pull_got (pull_blocks stopped tag ids) tag s stored (fetch w id) in
        if stopped id then record { store = s; world = w; stored = stored; ok = false } else got

    abbrev pub pull_missing : (List ℕ → Bool) → ℕ → L → Call W (Option (List (List ℕ))) → Pulled
    pull_missing stopped tag s (w, none) = record { store = s; world = w; stored = []; ok = false }
    pull_missing stopped tag s (w, some missing) = pull_blocks stopped tag missing s w []

    -- `Pull`, for a client whose tag is `tag`. `none`: the listing for the filter fails, or has more
    -- pages than the fuel.
    unfoldable pub pull : (List ℕ → Bool) → ℕ → ℕ → L → W → ℤ → ℤ → Option Pulled
    pull stopped tag fuel s w pow_floor since =
        bloom_of_store (λ token. local.list s token 500 (pos 0) zero_time) fuel >>= λ bloom.
        some (pull_missing stopped tag s (delta w bloom pow_floor since))

    -- What `Push` leaves: the world, the number of uploads, and whether it ended without an error.
    pub record Pushed : Type 0 where
      pub world : W
      pub uploaded : ℕ
      pub ok : Bool

    abbrev pub counted : Call W (Option (List ℕ)) → ℕ → W × ℕ
    counted (w, none) uploaded = (w, uploaded)
    counted (w, some id) uploaded = (w, uploaded + 1)

    abbrev pub push_got : W → ℕ → Answer (List ℕ × List ℕ) → W × ℕ
    push_got w uploaded (answer b) = counted (upload w b.0 b.1) uploaded
    push_got w uploaded _ = (w, uploaded)

    -- The loop over the references of a page; `skip` tells the IDs to leave out.
    unfoldable pub push_refs : (List ℕ → Bool) → L → List BlockRef → W → ℕ → W × ℕ
    push_refs skip s [] w uploaded = (w, uploaded)
    push_refs skip s (ref ∷ refs) w uploaded =
        let (w', uploaded') =
          if skip ref.id then (w, uploaded) else push_got w uploaded (local.get s ref.id) in
        push_refs skip s refs w' uploaded'

    abbrev pub push_page :
        (List ℕ → W → ℕ → Option Pushed)
        → (List ℕ → Bool)
        → L
        → W
        → ℕ
        → Option (List ℕ × List BlockRef)
        → Option Pushed
    push_page more skip s w uploaded none =
        some (record { world = w; uploaded = uploaded; ok = false })
    push_page more skip s w uploaded (some ([], refs)) =
        let (w', uploaded') = push_refs skip s refs w uploaded in
        some (record { world = w'; uploaded = uploaded'; ok = true })
    push_page more skip s w uploaded (some (c ∷ next, refs)) =
        let (w', uploaded') = push_refs skip s refs w uploaded in more (c ∷ next) w' uploaded'

    -- The loop over the pages, from a token on; `none` is more pages than the fuel.
    unfoldable pub push_pages :
        (List ℕ → Bool) → (List ℕ → Bool) → L → ℤ → ℤ → ℕ → List ℕ → W → ℕ → Option Pushed
    push_pages stopped skip s floor since zero token w uploaded = none
    push_pages stopped skip s floor since (suc fuel) token w uploaded =
        let rest =
          push_page (push_pages stopped skip s floor since fuel) skip s w uploaded
            (local.list s token 100 floor since) in
        if stopped token then some (record { world = w; uploaded = uploaded; ok = false }) else rest

    abbrev pub push_limit :
        (List ℕ → Bool) → (List ℕ → Bool) → ℕ → L → ℤ → ℤ → Call W (Option ℤ) → Option Pushed
    push_limit stopped skip fuel s pow_floor since (w, none) =
        some (record { world = w; uploaded = 0; ok = false })
    push_limit stopped skip fuel s pow_floor since (w, some limit) =
        push_pages stopped skip s (max_floor pow_floor limit) since fuel [] w 0

    -- `Push`; `none` is more pages than the fuel.
    unfoldable pub push : (List ℕ → Bool) → (List ℕ → Bool) → ℕ → L → W → ℤ → ℤ → Option Pushed
    push stopped skip fuel s w pow_floor since =
        push_limit stopped skip fuel s pow_floor since (fetch_pow_limit w)
