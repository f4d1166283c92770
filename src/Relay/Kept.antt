-- ===== src/Relay/Kept.antt =====
-- What no client can make the relay do.
use sneakernet.Prelude.{
  ℕ, ◌≡◌, refl, Option, none, some, ◌>>=◌, >>=-eq-some, false, Bool-cases, List, [], ◌∷◌, inl, inr,
  arith, subst, length, length-take, length-drop, All, All-take, All-drop, take, drop, ◌==◌, ==_iff,
  ◌∙◌,
}
use sneakernet.Bytes.{IsByte}
use sneakernet.Blockstore.{IsStamp, IsPayload}
use sneakernet.Relay.Bloom.Lacking.{copy_whole}
use sneakernet.Integers.{pos, ltb_ℤ}
use sneakernet.Blockstore.Pow.{Hashes, work_factor}
use sneakernet.Relay.Http.{Backend, Codecs, Addresses, Request, Reply}
use sneakernet.Relay.Http.Request.{
  get_block, post_block, post_delta, get_pow_limit, get_peers, post_hello, options,
}
use sneakernet.Relay.Server.{
  Server, Messages, Node, wire_size, put_checked, put_reply, upload_tag, handle_put, handle_delta,
  handle_hello, serve,
}

-- The body of an upload is made of bytes.
abbrev pub HasBytes : Request → Type 0
HasBytes (post_block body) = All IsByte body
HasBytes _ = Unit

module _ {S P : Type 0} (store : Backend S) (codecs : Codecs) (hashes : Hashes)
    (addresses : Addresses) (messages : Messages) (server : Server P) (fuel : ℕ) where
  -- The relay after requests from addresses; `none` is more pages than the fuel.
  unfoldable pub serve_all : Node S P → List (List ℕ × Request) → Option (Node S P)
  serve_all n [] = some n
  serve_all n ((remote, request) ∷ requests) =
      serve store codecs hashes addresses messages server fuel remote n request >>= λ done.
      serve_all done.0 requests

  -- What a `Put` of a block at or above the floor, under the tag of some address, keeps.
  abbrev pub IsKept : (S → Type 0) → Type 0
  IsKept I =
      (s : S) (remote stamp payload : List ℕ)
      → IsStamp stamp
      → IsPayload payload
      → ltb_ℤ (pos (work_factor hashes stamp payload)) server.pow_floor ≡ false
      → I s
      → I
          (store.put s stamp payload
            (upload_tag store codecs hashes addresses messages server remote)).0

  module _ (I : S → Type 0) (kept : IsKept I) where
    same_store : (n n' : Node S P) → n ≡ n' → I n.store → I n'.store
    same_store n n' e h = subst (λ (n : Node S P). I n.store) e h

    replied :
        (wf : ℕ) (done : S × Option (List ℕ))
        → (put_reply store codecs hashes addresses messages server wf done).0 ≡ done.0
    replied wf (s, none) = refl
    replied wf (s, some id) = refl

    put_checked-Kept :
        (s : S) (remote stamp payload : List ℕ)
        → IsStamp stamp
        → IsPayload payload
        → I s
        → I (put_checked store codecs hashes addresses messages server s remote stamp payload).0
    put_checked-Kept s remote stamp payload hs hp h =
        let wf = work_factor hashes stamp payload in
        let tag = upload_tag store codecs hashes addresses messages server remote in
        elim (Bool-cases (ltb_ℤ (pos wf) server.pow_floor)) [
          | inl low ↦ rw low h
          | inr high ↦
              rw (high, replied wf (store.put s stamp payload tag))
                (kept s remote stamp payload hs hp high h)
        ]

    handle_put-Kept :
        (s : S) (remote body : List ℕ)
        → All IsByte body
        → I s
        → I (handle_put store codecs hashes addresses messages server s remote body).0
    unfolding handle_put
    handle_put-Kept s remote body bytes h =
        let read = take 4101 body in
        elim (Bool-cases (length read == wire_size)) [
          | inl sized ↦
              let size : length read ≡ 4100 = (==_iff (length read) wire_size).0 sized in
              let clean = All-take IsByte 4101 body bytes in
              let hs : IsStamp (take 4 read) = record {
                size = length-take 4 read ∙ omega (arith, size);
                bytes = All-take IsByte 4 read clean;
              } in
              let hp : IsPayload (drop 4 read) = record {
                size = length-drop 4 read ∙ omega (arith, size);
                bytes = All-drop IsByte 4 read clean;
              } in
              rw (sized, copy_whole 4 (take 4 read) hs.size, copy_whole 4096 (drop 4 read) hp.size)
                (put_checked-Kept s remote (take 4 read) (drop 4 read) hs hp h)
          | inr wrong ↦ rw wrong h
        ]

    serve-Kept :
        (remote : List ℕ) (n n' : Node S P) (request : Request) (reply : Reply)
        → serve store codecs hashes addresses messages server fuel remote n request
          ≡ some (n', reply)
        → HasBytes request
        → I n.store
        → I n'.store
    unfolding serve
    serve-Kept remote n n' (get_block id) reply e bytes h = same_store n n' (cc e) h
    serve-Kept remote n n' (post_block body) reply e bytes h =
        let put = handle_put store codecs hashes addresses messages server n.store remote body in
        same_store (record n { store = put.0 }) n' (cc e)
          (handle_put-Kept n.store remote body bytes h)
    serve-Kept remote n n' (post_delta body) reply e bytes h =
        let (r, found, rest) =
          >>=-eq-some (handle_delta store codecs hashes addresses messages server n.store fuel body)
            _ e in
        same_store n n' (cc rest) h
    serve-Kept remote n n' get_pow_limit reply e bytes h = same_store n n' (cc e) h
    serve-Kept remote n n' get_peers reply e bytes h = same_store n n' (cc e) h
    serve-Kept remote n n' (post_hello body) reply e bytes h =
        let done = handle_hello store codecs hashes addresses messages server n.peers body in
        same_store (record n { peers = done.0 }) n' (cc e) h
    serve-Kept remote n n' options reply e bytes h = same_store n n' (cc e) h

    -- Whatever requests come, from whatever addresses: what every `Put` of a block with a work factor at
    -- or above the relay's floor keeps, under the tags that the relay gives, the relay's store keeps.
    pub serve_all-Kept :
        (requests : List (List ℕ × Request)) (n n' : Node S P)
        → serve_all n requests ≡ some n'
        → All (λ r. HasBytes r.1) requests
        → I n.store
        → I n'.store
    unfolding serve_all
    serve_all-Kept [] n n' e bytes h = same_store n n' (cc e) h
    serve_all-Kept ((remote, request) ∷ requests) n n' e bytes h =
        let (done, served, rest) =
          >>=-eq-some (serve store codecs hashes addresses messages server fuel remote n request) _
            e in
        serve_all-Kept requests done.0 n' rest bytes.1
          (serve-Kept remote n done.0 request done.1 served bytes.0 h)
