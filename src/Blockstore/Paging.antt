-- ===== src/Blockstore/Paging.antt =====
-- The loop over the pages of `ListBlocks`, as every caller of it is written: from the empty token,
-- until a page has no next token.
use sneakernet.Prelude.{ℕ, zero, suc, Option, none, some, ◌>>=◌, List, [], ◌∷◌, ◌++◌}
use sneakernet.Blockstore.{BlockRef}

-- A token to the next token and the references of the page; `none` is an error.
abbrev pub Lister : Type 0
Lister = List ℕ → Option (List ℕ × List BlockRef)

-- All references, in the order of the pages. `none` is an error, or more pages than the fuel.
unfoldable pub all_pages : Lister → ℕ → List ℕ → Option (List BlockRef)
all_pages list zero token = none
all_pages list (suc fuel) token = list token >>= λ page. elim page.0 [
  | [] ↦ some page.1
  | c ∷ next ↦ all_pages list fuel (c ∷ next) >>= λ more. some (page.1 ++ more)
]
