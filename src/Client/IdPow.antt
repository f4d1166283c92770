-- ===== src/Client/IdPow.antt =====
-- client/idpow.go: proof of work for an identity's public key, and the texts that carry it. argon2id,
-- with the program's salt and cost, and `strings.TrimSpace` are parameters.
pub mod Best
use sneakernet.Prelude.{
  ℕ, zero, suc, ◌+◌, ◌≡◌, Bool, true, false, not, ◌&&◌, ◌||◌, Option, none, some, List, [], ◌∷◌,
  ◌++◌, ltb, ◌==◌, bytes_eq, if◌then◌else◌, length, take, drop, copy_at, replicate,
}
use sneakernet.Base64
use sneakernet.Blockstore.Pow.{leading_zeros8}

abbrev pub id_pow_stamp_size : ℕ
id_pow_stamp_size = 16

abbrev pub pow_gift_prefix : List ℕ
pow_gift_prefix =
    b's' ∷ b'n' ∷ b'k' ∷ b'-' ∷ b'p' ∷ b'o' ∷ b'w' ∷ b'-' ∷ b'g' ∷ b'i' ∷ b'f' ∷ b't' ∷ b':' ∷ []

unfoldable pub format_pow_gift : List ℕ → List ℕ
format_pow_gift stamp = pow_gift_prefix ++ Base64.encode stamp

-- A stamp of one byte at least.
abbrev pub decode_stamp : List ℕ → Option (List ℕ)
decode_stamp text = elim (Base64.decode text) [
  | none ↦ none
  | some stamp ↦ elim stamp [ [] ↦ none | b ∷ rest ↦ some (b ∷ rest) ]
]

unfoldable pub parse_pow_gift : (trim : List ℕ → List ℕ) → (body : List ℕ) → Option (List ℕ)
parse_pow_gift trim body =
    let s = trim body in
    if bytes_eq (take 13 s) pow_gift_prefix then decode_stamp (trim (drop 13 s)) else none

-- The loop of `idPowLeadingZeroBits`.
unfoldable pub id_pow_zeros : ℕ → List ℕ → ℕ
id_pow_zeros count [] = count
id_pow_zeros count (v ∷ b) =
    let lz = leading_zeros8 v in
    let rest = id_pow_zeros (count + lz) b in if ltb lz 8 then count + lz else rest

abbrev pub id_pow_leading_zero_bits : List ℕ → ℕ
id_pow_leading_zero_bits b = id_pow_zeros 0 b

-- The part in front of the first byte `c` and the part behind it.
unfoldable pub split_at : ℕ → List ℕ → Option (List ℕ × List ℕ)
split_at c [] = none
split_at c (x ∷ xs) =
    let rest = split_at c xs in
    if x == c then some ([], xs) else (elim rest [ none ↦ none | some r ↦ some (x ∷ r.0, r.1) ])

-- What stands behind the last byte `c`.
unfoldable pub behind_last : ℕ → List ℕ → Option (List ℕ)
behind_last c [] = none
behind_last c (x ∷ xs) = elim (behind_last c xs) [
  | some r ↦ some r
  | none ↦ if x == c then some xs else none
]

-- What became of one round of the mining loop.
pub data IdRound : Type 0 where
  id_cancelled id_deadline id_no_entropy : IdRound
  id_drew : List ℕ → IdRound

module _ (argon2 : List ℕ → List ℕ) where
  unfoldable pub identity_work_factor : (stamp pubkey : List ℕ) → ℕ
  unfolding id_pow_zeros
  identity_work_factor stamp pubkey =
      let input = replicate (length stamp + 32) 0 in
      let input = copy_at 0 input stamp in
      let input = copy_at (length stamp) input pubkey in id_pow_leading_zero_bits (argon2 input)

  -- The stamp with its work factor; `none` is the answer nil, 0.
  unfoldable pub parse_snk_stamp :
      (trim : List ℕ → List ℕ) → (body sender_pub : List ℕ) → Option (List ℕ × ℕ)
  unfolding split_at behind_last
  parse_snk_stamp trim body sender_pub =
      let line : List ℕ = elim (split_at 10 body) [ none ↦ body | some parts ↦ parts.0 ] in
      elim (split_at 32 line) [
        | none ↦ none
        | some parts ↦ elim (behind_last b'/' parts.0) [
          | none ↦ none
          | some key_text ↦
              if bytes_eq (take 4 parts.0) (b's' ∷ b'n' ∷ b'k' ∷ b':' ∷ [])
              then (elim (Base64.decode key_text) [
                | none ↦ none
                | some pub_bytes ↦
                    if not (length pub_bytes == 32) || not (bytes_eq pub_bytes sender_pub)
                    then none
                    else (elim (decode_stamp (trim parts.1)) [
                      | none ↦ none
                      | some stamp ↦ some (stamp, identity_work_factor stamp sender_pub)
                    ])
              ])
              else none
        ]
      ]

  -- The best stamp and its work factor, and whether there was no error; `none` when the loop is still
  -- running after the rounds.
  unfoldable pub mine_rounds :
      (pubkey best : List ℕ) → (best_bits : ℕ) → List IdRound → Option (List ℕ × ℕ × Bool)
  mine_rounds pubkey best best_bits [] = none
  mine_rounds pubkey best best_bits (id_cancelled ∷ rounds) = some (best, best_bits, false)
  mine_rounds pubkey best best_bits (id_deadline ∷ rounds) = some (best, best_bits, true)
  mine_rounds pubkey best best_bits (id_no_entropy ∷ rounds) = some (best, best_bits, false)
  mine_rounds pubkey best best_bits (id_drew stamp ∷ rounds) =
      let wf = identity_work_factor stamp pubkey in
      let better = mine_rounds pubkey stamp wf rounds in
      let same = mine_rounds pubkey best best_bits rounds in
      if ltb best_bits wf then better else same

  -- `first` is the first draw, for a seed that is no stamp.
  unfoldable pub mine_identity_pow :
      (pubkey seed : List ℕ) → (first : Option (List ℕ)) → List IdRound → Option (List ℕ × ℕ × Bool)
  unfolding mine_rounds
  mine_identity_pow pubkey seed first rounds =
      if length seed == id_pow_stamp_size
      then mine_rounds pubkey seed (identity_work_factor seed pubkey) rounds
      else (elim first [
        | none ↦ some ([], 0, false)
        | some best ↦ mine_rounds pubkey best (identity_work_factor best pubkey) rounds
      ])
