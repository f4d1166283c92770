-- ===== src/Client/MessageFormat/Threads.antt =====
-- The references of a reply, over a whole thread.
use sneakernet.Prelude.{
  ℕ, zero, suc, ◌≤◌, ◌∙◌, arith, ◌≡◌, refl, ap, List, [], ◌∷◌, ◌++◌, take, replicate,
}
use sneakernet.Client.MessageFormat.{build_thread_refs, thread_count}

abbrev pub zero_ref : List ℕ
zero_ref = replicate 32 0

-- The references of the reply to the newest of the messages, given newest first: each message was
-- a reply to the one before it.
unfoldable pub reply_refs : List (List ℕ) → List (List ℕ)
reply_refs [] = replicate thread_count zero_ref
reply_refs (id ∷ ids) = build_thread_refs id (reply_refs ids)

take-take : (n m : ℕ) (xs : List (List ℕ)) → n ≤ m → take n (take m xs) ≡ take n xs
unfolding take
take-take zero m xs h = refl
take-take (suc n) zero xs h = absurd (omega arith)
take-take (suc n) (suc m) [] h = refl
take-take (suc n) (suc m) (x ∷ xs) h = ap (λ t. x ∷ t) (take-take n m xs (omega arith))

-- In a thread of which each message is a reply to the one before, the references of the next reply
-- are the last eight messages, the newest first, filled up with zero references.
pub reply_refs-take :
    (ids : List (List ℕ))
    → reply_refs ids ≡ take thread_count (ids ++ replicate thread_count zero_ref)
unfolding reply_refs build_thread_refs take replicate
reply_refs-take [] = refl
reply_refs-take (id ∷ ids) =
    ap (λ t. id ∷ take 7 t) (reply_refs-take ids)
    ∙ ap (λ t. id ∷ t) (take-take 7 8 (ids ++ replicate thread_count zero_ref) (omega arith))
