-- ===== src/Client/IdPow/Best.antt =====
-- What mining returns, and that a gift is read as it was written.
use sneakernet.Prelude.{
  some_injective, ℕ, ◌≤◌, ◌<◌, ◌≡◌, refl, sym, ap, ◌∙◌, Bool, true, false, Bool-cases, Option, none,
  some, inl, inr, List, [], ◌∷◌, ◌++◌, arith, ltb, ltb→lt, ◌==◌, bytes_eq_refl, if◌then◌else◌,
  length, All, All-append, Elem, take-append, drop-append, subst,
}
use sneakernet.Bytes.{IsByte}
use sneakernet.Base64
use sneakernet.Base64.{char_of}
use sneakernet.Base64.RoundTrip.{decode-encode}
use sneakernet.Client.IdPow.{
  pow_gift_prefix, format_pow_gift, parse_pow_gift, decode_stamp, id_pow_stamp_size,
  identity_work_factor, IdRound, id_cancelled, id_deadline, id_no_entropy, id_drew, mine_rounds,
  mine_identity_pow,
}

-- The stamps that are drawn in front of the end of the loop.
abbrev pub drawn : List IdRound → List (List ℕ)
drawn [] = []
drawn (id_cancelled ∷ rounds) = []
drawn (id_deadline ∷ rounds) = []
drawn (id_no_entropy ∷ rounds) = []
drawn (id_drew stamp ∷ rounds) = stamp ∷ drawn rounds

at_most : (a b n : ℕ) → ltb a b ≡ false → a ≤ n → b ≤ n
at_most a b n e h = ground arith

one_more : {A : Type 0} (x y : A) (xs : List A) {a : A} → Elem a (x ∷ xs) → Elem a (x ∷ y ∷ xs)
one_more x y xs (inl e) = inl e
one_more x y xs (inr m) = inr (inr m)

module _ (argon2 : List ℕ → List ℕ) (pubkey : List ℕ) where
  abbrev pub bits_of : List ℕ → ℕ
  bits_of stamp = identity_work_factor argon2 stamp pubkey

  -- The answer is one of the stamps, and none of them is better.
  abbrev pub IsBest : List (List ℕ) → List ℕ × ℕ × Bool → Type 0
  IsBest stamps got =
      Elem got.0 stamps × (got.1 ≡ bits_of got.0) × All (λ s. bits_of s ≤ got.1) stamps

  -- The loop ends with what it has.
  ended :
      (best : List ℕ) (got : List ℕ × ℕ × Bool) (ok : Bool)
      → some (best, bits_of best, ok) ≡ some got
      → IsBest (best ∷ []) got
  ended best got ok h =
      let e : ◌≡◌ {A = List ℕ × ℕ × Bool} (best, bits_of best, ok) got = some_injective h in
      let bits : bits_of best ≡ got.1 = ap (λ g. g.1) e in
      (inl (ap (λ g. g.0) e), sym bits ∙ ap (λ g. bits_of g.0) e, (omega (arith, bits), tt))

  mine_rounds-IsBest :
      (best : List ℕ) (rounds : List IdRound) (got : List ℕ × ℕ × Bool)
      → mine_rounds argon2 pubkey best (bits_of best) rounds ≡ some got
      → IsBest (best ∷ drawn rounds) got
  unfolding mine_rounds
  mine_rounds-IsBest best [] got h = cc
  mine_rounds-IsBest best (id_cancelled ∷ rounds) got h = ended best got false h
  mine_rounds-IsBest best (id_deadline ∷ rounds) got h = ended best got true h
  mine_rounds-IsBest best (id_no_entropy ∷ rounds) got h = ended best got false h
  mine_rounds-IsBest best (id_drew stamp ∷ rounds) got h =
      let better = mine_rounds argon2 pubkey stamp (bits_of stamp) rounds in
      let same = mine_rounds argon2 pubkey best (bits_of best) rounds in
      elim (Bool-cases (ltb (bits_of best) (bits_of stamp))) [
        | inl e ↦
            let (m, is, most) =
              mine_rounds-IsBest stamp rounds got
                (subst (λ b. (if b then better else same) ≡ some got) e h) in
            (inr m, is, (omega (arith, ltb→lt _ _ e, most.0), most))
        | inr e ↦
            let (m, is, most) =
              mine_rounds-IsBest best rounds got
                (subst (λ b. (if b then better else same) ≡ some got) e h) in
            (one_more best stamp (drawn rounds) m, is, (most.0, (at_most _ _ _ e most.0, most.1)))
      ]

  -- If mining ends, with a seed of 16 bytes: the answer is the seed or one of the stamps that were
  -- drawn before the end, it comes with its own work factor, and neither the seed nor any of those
  -- stamps has a higher one; also when the end is an error.
  pub mine_identity_pow-IsBest :
      (seed : List ℕ) (first : Option (List ℕ)) (rounds : List IdRound) (got : List ℕ × ℕ × Bool)
      → length seed ≡ id_pow_stamp_size
      → mine_identity_pow argon2 pubkey seed first rounds ≡ some got
      → IsBest (seed ∷ drawn rounds) got
  unfolding mine_identity_pow
  mine_identity_pow-IsBest seed first rounds got size h =
      let test : (length seed == id_pow_stamp_size) ≡ true = ground (arith, size) in
      mine_rounds-IsBest seed rounds got (
        subst
          (λ b.
            (if b then mine_rounds argon2 pubkey seed (bits_of seed) rounds else (elim first [
              | none ↦ some ([], 0, false)
              | some best ↦ mine_rounds argon2 pubkey best (bits_of best) rounds
            ]))
            ≡ some got)
          test h)

char_bounds : (n : ℕ) → n < 64 → (32 < char_of n) × (char_of n < 127)
unfolding char_of
char_bounds n h = ground arith

-- A character that is printed and is no space.
abbrev pub IsPrinted : ℕ → Type 0
IsPrinted c = (32 < c) × (c < 127)

encode-IsPrinted : (bs : List ℕ) → All IsByte bs → All IsPrinted (Base64.encode bs)
unfolding Base64.encode
encode-IsPrinted [] h = tt
encode-IsPrinted (a ∷ []) h =
    (char_bounds _ (omega (arith, h.0)), (char_bounds _ (omega arith), tt))
encode-IsPrinted (a ∷ b ∷ []) h = (
  char_bounds _ (omega (arith, h.0)),
  (char_bounds _ (omega (arith, h.1.0)), (char_bounds _ (omega arith), tt)),
)
encode-IsPrinted (a ∷ b ∷ c ∷ rest) h = (
  char_bounds _ (omega (arith, h.0)),
  (
    char_bounds _ (omega (arith, h.1.0)),
    (
      char_bounds _ (omega (arith, h.1.1.0)),
      (char_bounds _ (omega arith), encode-IsPrinted rest h.1.1.1),
    ),
  ),
)

prefix-IsPrinted : All IsPrinted pow_gift_prefix
prefix-IsPrinted = ground arith

-- With a trimming that leaves texts of printed characters without spaces: the text of a gift of at
-- least one byte is read as the stamp that it was made of.
pub parse_pow_gift-format_pow_gift :
    (trim : List ℕ → List ℕ)
    → ((text : List ℕ) → All IsPrinted text → trim text ≡ text)
    → (b : ℕ) (stamp : List ℕ) → All IsByte (b ∷ stamp)
    → parse_pow_gift trim (format_pow_gift (b ∷ stamp)) ≡ some (b ∷ stamp)
unfolding parse_pow_gift format_pow_gift
parse_pow_gift-format_pow_gift trim trims b stamp bytes =
    let coded = Base64.encode (b ∷ stamp) in
    let printed = encode-IsPrinted (b ∷ stamp) bytes in
    rw
      (
        trims (pow_gift_prefix ++ coded)
            (All-append IsPrinted pow_gift_prefix coded prefix-IsPrinted printed),
        take-append pow_gift_prefix coded {n = 13} refl,
        drop-append pow_gift_prefix coded {n = 13} refl,
        bytes_eq_refl pow_gift_prefix,
        trims coded printed,
        decode-encode (b ∷ stamp) bytes,
        decode_stamp,
      )
      refl
