-- ===== src/Relay/Bloom/Lacking.antt =====
-- The listed blocks that a filter does not answer for: what an exchange has to pass on.
use sneakernet.Prelude.{
  ℕ, ◌≡◌, refl, sym, ap, ◌∙◌, Bool, true, false, List, [], ◌∷◌, ◌++◌, arith, length, All,
  All-append, copy, copy-append, copy_at, copy_at_fill, append-nil, replicate, length-replicate,
}
use sneakernet.Blockstore.{BlockRef}
use sneakernet.Blockstore.Badger.{Answer, answer}
use sneakernet.Relay.Bloom.{Bloom, has}

abbrev pub Block : Type 0
Block = List ℕ × List ℕ

abbrev pub IsBlock : Block → Type 0
IsBlock b = (length b.0 ≡ 4) × (length b.1 ≡ 4096)

-- The blocks that the sender has and the peer's filter does not.
abbrev pub found_block : Bool → Answer Block → List Block
found_block false (answer b) = b ∷ []
found_block _ _ = []

module _ (get : List ℕ → Answer Block) (peer : Bloom) where
  unfoldable pub lacking : List BlockRef → List Block
  lacking [] = []
  lacking (ref ∷ refs) = found_block (has peer ref.id ref.work_factor) (get ref.id) ++ lacking refs

  pub lacking-All :
      ((id : List ℕ) (b : Block) → get id ≡ answer b → IsBlock b)
      → (refs : List BlockRef) → All IsBlock (lacking refs)
  unfolding lacking
  lacking-All sized [] = tt
  lacking-All sized (ref ∷ refs) =
      All-append IsBlock (found_block (has peer ref.id ref.work_factor) (get ref.id)) (lacking refs)
        (found_All (has peer ref.id ref.work_factor) (get ref.id) (sized ref.id))
        (lacking-All sized refs)
    where
      found_All :
          (h : Bool) (a : Answer Block)
          → ((b : Block) → a ≡ answer b → IsBlock b)
          → All IsBlock (found_block h a)
      found_All false (answer b) sized = (sized b refl, tt)
      found_All true (answer b) sized = tt
      found_All _ _ sized = tt

-- A copy over zeros.
pub copy_whole : (n : ℕ) (xs : List ℕ) → length xs ≡ n → copy (replicate n 0) xs ≡ xs
copy_whole n xs h =
    ap (λ t. copy t xs) (sym (append-nil _))
    ∙ copy-append (replicate n 0) xs [] (length-replicate {A = ℕ} n 0 ∙ sym h)
    ∙ append-nil xs

pub block_body :
    (b : Block) → IsBlock b → copy_at 4 (copy_at 0 (replicate 4100 0) b.0) b.1 ≡ b.0 ++ b.1
block_body b h =
    ap (λ t. copy_at 4 t b.1) (copy_at_fill [] b.0 0 4100 4096 0 refl (omega (arith, h.0)))
    ∙ copy_at_fill b.0 b.1 0 4096 0 4 h.0 (omega (arith, h.1))
    ∙ (unfold replicate in append-nil (b.0 ++ b.1))
