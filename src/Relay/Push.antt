-- ===== src/Relay/Push.antt =====
-- `Push` to a relay: what the relay takes.
use sneakernet.Prelude.{
  ℕ, zero, suc, ◌+◌, ◌≡◌, refl, sym, ap, ◌∙◌, arith, Option, none, some, ◌>>=◌, >>=-eq-some, Bool,
  true, false, List, [], ◌∷◌, ◌++◌, append_assoc, if◌then◌else◌,
}
use sneakernet.Integers.{ℤ}
use sneakernet.Blockstore.{BlockRef, IsId}
use sneakernet.Blockstore.Paging.{all_pages}
use sneakernet.Blockstore.Pow.{Hashes}
use sneakernet.Blockstore.Badger.{Answer, answer, not_found, failed}
use sneakernet.Relay.Bloom.Store.{next_pages}
use sneakernet.Relay.Bloom.Lacking.{Block, IsBlock, found_block}
use sneakernet.Relay.Http.{Backend, Codecs, Addresses, Request, Reply}
use sneakernet.Relay.Server.{Server, Messages, Node, max_floor}
use sneakernet.Relay.Client.{
  Call, Pushed, counted, push_got, push_refs, push_page, push_pages, push,
}
use sneakernet.Relay.Remote.{wire}
use sneakernet.Relay.Remote.Calls.{submitted, upload-put, pow_limit, fetch_pow_limit-pow_limit}

-- The listed blocks that are not left out and that the store returns.
unfoldable pub offered : (List ℕ → Bool) → (List ℕ → Answer Block) → List BlockRef → List Block
offered skip get [] = []
offered skip get (ref ∷ refs) = found_block (skip ref.id) (get ref.id) ++ offered skip get refs

offered-append :
    (skip : List ℕ → Bool) (get : List ℕ → Answer Block) (xs ys : List BlockRef)
    → offered skip get (xs ++ ys) ≡ offered skip get xs ++ offered skip get ys
unfolding offered
offered-append skip get [] ys = refl
offered-append skip get (x ∷ xs) ys =
    ap (λ bs. found_block (skip x.id) (get x.id) ++ bs) (offered-append skip get xs ys)
    ∙ sym (append_assoc (found_block (skip x.id) (get x.id)) (offered skip get xs) _)

module _ {S P L : Type 0} (store : Backend S) (codecs : Codecs) (hashes : Hashes)
    (addresses : Addresses) (messages : Messages) (server : Server P) (fuel : ℕ) (remote : List ℕ)
    (local : Backend L)
    (named : (s : S) (b : Block) (tag : ℕ) (id : List ℕ)
      → (store.put s b.0 b.1 tag).1 ≡ some id
      → IsId id)
    (s : L) (sized : (id : List ℕ) (b : Block) → local.get s id ≡ answer b → IsBlock b)
    (skip : List ℕ → Bool) where
  abbrev on_wire : Node S P → Request → Call (Node S P) (Option Reply)
  on_wire = wire store codecs hashes addresses messages server fuel remote

  abbrev accepted : Option (List ℕ) → ℕ
  accepted none = 0
  accepted (some id) = 1

  -- The relay after a run of uploads, and the number of those that it answered with an ID.
  unfoldable pub submit_all : Node S P → ℕ → List Block → Node S P × ℕ
  submit_all n uploaded [] = (n, uploaded)
  submit_all n uploaded (b ∷ bs) =
      let call = submitted store codecs hashes addresses messages server fuel remote n b in
      submit_all call.0 (uploaded + accepted call.1) bs

  counted-accepted :
      (call : Call (Node S P) (Option (List ℕ))) (u : ℕ)
      → counted codecs on_wire local call u ≡ (call.0, u + accepted call.1)
  counted-accepted (n, none) u =
      let same : u ≡ u + 0 = omega arith in
      ap (λ u. let after : Node S P × ℕ = (n, u) in after) same
  counted-accepted (n, some id) u = refl

  submit_all-append :
      (xs ys : List Block) (n : Node S P) (u : ℕ)
      → submit_all n u (xs ++ ys) ≡ submit_all (submit_all n u xs).0 (submit_all n u xs).1 ys
  unfolding submit_all
  submit_all-append [] ys n u = refl
  submit_all-append (x ∷ xs) ys n u = submit_all-append xs ys _ _

  push_one :
      (skipped : Bool) (a : Answer Block)
      → ((b : Block) → a ≡ answer b → IsBlock b)
      → (n : Node S P) (u : ℕ)
      → (if skipped then (n, u) else push_got codecs on_wire local n u a)
        ≡ submit_all n u (found_block skipped a)
  unfolding submit_all
  push_one true (answer b) ok n u = refl
  push_one true not_found ok n u = refl
  push_one true (failed) ok n u = refl
  push_one false not_found ok n u = refl
  push_one false (failed) ok n u = refl
  push_one false (answer b) ok n u =
      ap (λ call. counted codecs on_wire local call u)
        (upload-put store codecs hashes addresses messages server fuel remote n b (ok b refl)
          (named n.store b _))
      ∙ counted-accepted (submitted store codecs hashes addresses messages server fuel remote n b) u

  push_refs-submit_all :
      (refs : List BlockRef) (n : Node S P) (u : ℕ)
      → push_refs codecs on_wire local skip s refs n u
        ≡ submit_all n u (offered skip (local.get s) refs)
  unfolding push_refs offered submit_all
  push_refs-submit_all [] n u = refl
  push_refs-submit_all (ref ∷ refs) n u =
      let step = push_one (skip ref.id) (local.get s ref.id) (sized ref.id) n u in
      ap (λ (nu : Node S P × ℕ). push_refs codecs on_wire local skip s refs nu.0 nu.1) step
      ∙ push_refs-submit_all refs _ _
      ∙ sym (
          submit_all-append (found_block (skip ref.id) (local.get s ref.id))
            (offered skip (local.get s) refs) n u)

  abbrev pub never : List ℕ → Bool
  never token = false

  abbrev pub finish : Node S P × ℕ → Pushed codecs on_wire local
  finish nu = record { world = nu.0; uploaded = nu.1; ok = true }

  abbrev done : Node S P → ℕ → List BlockRef → Pushed codecs on_wire local
  done n u refs = finish (submit_all n u (offered skip (local.get s) refs))

  push_step :
      (f : List ℕ → Node S P → ℕ → Option (Pushed codecs on_wire local))
      (g : List ℕ → Option (List BlockRef))
      → ((token : List ℕ) (refs : List BlockRef)
          → g token ≡ some refs
          → (n : Node S P) (u : ℕ) → f token n u ≡ some (done n u refs))
      → (page : Option (List ℕ × List BlockRef)) (refs : List BlockRef)
      → (page >>= next_pages g) ≡ some refs
      → (n : Node S P) (u : ℕ)
      → push_page codecs on_wire local f skip s n u page ≡ some (done n u refs)
  push_step f g same none refs h n u = cc
  push_step f g same (some ([], found)) refs h n u =
      let e : found ≡ refs = cc h in
      ap (λ nu. some (finish nu)) (push_refs-submit_all found n u)
      ∙ ap (λ refs. some (done n u refs)) e
  push_step f g same (some (c ∷ next, found)) refs h n u =
      let (more, listed, joined) = >>=-eq-some (g (c ∷ next)) _ h in
      let e : found ++ more ≡ refs = cc joined in
      let here = offered skip (local.get s) found in
      let rest = offered skip (local.get s) more in
      ap (λ (nu : Node S P × ℕ). f (c ∷ next) nu.0 nu.1) (push_refs-submit_all found n u)
      ∙ same (c ∷ next) more listed (submit_all n u here).0 (submit_all n u here).1
      ∙ ap (λ nu. some (finish nu)) (sym (submit_all-append here rest n u))
      ∙ ap (λ bs. some (finish (submit_all n u bs)))
          (sym (offered-append skip (local.get s) found more))
      ∙ ap (λ refs. some (done n u refs)) e

  push_pages-all_pages :
      (floor since : ℤ) (pages : ℕ) (token : List ℕ) (refs : List BlockRef)
      → all_pages (λ token. local.list s token 100 floor since) pages token ≡ some refs
      → (n : Node S P) (u : ℕ)
      → push_pages codecs on_wire local never skip s floor since pages token n u
        ≡ some (done n u refs)
  unfolding push_pages all_pages
  push_pages-all_pages floor since zero token refs h n u = cc
  push_pages-all_pages floor since (suc pages) token refs h n u =
      push_step (push_pages codecs on_wire local never skip s floor since pages)
        (all_pages (λ token. local.list s token 100 floor since) pages)
        (push_pages-all_pages floor since pages) (local.list s token 100 floor since) refs h n u

  -- `Push` to a relay that tells its limit, over a connection that loses nothing and with a
  -- context that lasts, when the local listing at the higher of the limit and the client's floor
  -- ends within the fuel: it submits, in their order, exactly those listed blocks that are not
  -- left out and that the local store returns, and counts those that the relay answers with an ID.
  -- Blocks below the relay's floor leave the relay as it is. The local blocks and the relay's IDs
  -- have their sizes.
  pub push-submit_all :
      (n : Node S P) (pages : ℕ) (pow_floor since limit : ℤ) (refs : List BlockRef)
      → pow_limit store codecs hashes addresses messages server fuel remote n.store ≡ some limit
      → all_pages (λ token. local.list s token 100 (max_floor pow_floor limit) since) pages []
        ≡ some refs
      → push codecs on_wire local never skip pages s n pow_floor since
        ≡ some (finish (submit_all n 0 (offered skip (local.get s) refs)))
  unfolding push
  push-submit_all n pages pow_floor since limit refs told listed =
      rw
        (
          fetch_pow_limit-pow_limit store codecs hashes addresses messages server fuel remote n,
          told,
        )
        (push_pages-all_pages (max_floor pow_floor limit) since pages [] refs listed n 0)
