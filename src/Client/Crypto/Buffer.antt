-- ===== src/Client/Crypto/Buffer.antt =====
-- The three fields of a payload: the key or the salt, the nonce, and the sealed plaintext.
use sneakernet.Prelude.{
  ℕ, zero, suc, ◌<◌, ◌≡◌, refl, sym, ap, ◌∙◌, true, Bool, ◌||◌, ◌⊎◌, inl, inr, List, [], ◌∷◌, ◌++◌,
  arith, ◌==◌, length, length-append, length-set, set, get_or, drop, slice, copy_at, replicate,
  get_or-set_self, slice-append, slice_field, drop-append, append-nil, append_assoc, tabulate,
  tabulate_at,
}
use Prim.Native.Nat.{bit_and, bit_or}
use sneakernet.Bytes.{IsByte}
use sneakernet.Client.MessageFormat.Fields.{cat, fill, ended}
use sneakernet.Client.Crypto.{blend, fill_payload, fill_channel_payload}

set_front : (xs ys : List ℕ) (i v : ℕ) → i < length xs → set (xs ++ ys) i v ≡ set xs i v ++ ys
unfolding set
set_front [] ys i v h = absurd (omega arith)
set_front (x ∷ xs) ys zero v h = refl
set_front (x ∷ xs) ys (suc i) v h = ap (λ t. x ∷ t) (set_front xs ys i v (omega arith))

get_or_front : (xs ys : List ℕ) (i d : ℕ) → i < length xs → get_or (xs ++ ys) i d ≡ get_or xs i d
unfolding get_or
get_or_front [] ys i d h = absurd (omega arith)
get_or_front (x ∷ xs) ys zero d h = refl
get_or_front (x ∷ xs) ys (suc i) d h = get_or_front xs ys i d (omega arith)

set-set : (xs : List ℕ) (i v w : ℕ) → set (set xs i v) i w ≡ set xs i w
unfolding set
set-set [] i v w = refl
set-set (x ∷ xs) zero v w = refl
set-set (x ∷ xs) (suc i) v w = ap (λ t. x ∷ t) (set-set xs i v w)

module _ (a b ct : List ℕ) (ha : length a ≡ 32) (hb : length b ≡ 24) (hc : length ct ≡ 4040) where
  -- The fields behind the first one.
  rest_filled : copy_at 56 (copy_at 32 (cat (a ∷ []) ++ replicate 4064 0) b) ct ≡ a ++ (b ++ ct)
  rest_filled =
      ap (λ t. copy_at 56 t ct)
        (fill (a ∷ []) 32 (omega (arith, ha)) b 4064 4040 (omega (arith, hb)))
      ∙ fill (a ∷ b ∷ []) 56 (omega (arith, ha, hb)) ct 4040 0 (omega (arith, hc))
      ∙ ended (a ++ (b ++ (ct ++ [])))
      ∙ ap (λ t. a ++ (b ++ t)) (append-nil ct)

  pub fill_channel_payload-fields : fill_channel_payload a b ct ≡ a ++ (b ++ ct)
  unfolding fill_channel_payload
  fill_channel_payload-fields =
      ap (λ t. copy_at 56 (copy_at 32 t b) ct) (fill [] 0 refl a 4096 4064 (omega (arith, ha)))
      ∙ rest_filled

  pub read_first : slice 0 32 (a ++ (b ++ ct)) ≡ a
  read_first = slice-append a (b ++ ct) 32 ha

  pub read_nonce : slice 32 56 (a ++ (b ++ ct)) ≡ b
  read_nonce = slice_field a b ct 32 56 ha (omega (arith, hb))

  pub read_sealed : drop 56 (a ++ (b ++ ct)) ≡ ct
  read_sealed =
      ap (drop 56) (sym (append_assoc a b ct))
      ∙ drop-append (a ++ b) ct (omega (arith, ha, hb, length-append a b))

  pub fields_size : length (a ++ (b ++ ct)) ≡ 4096
  fields_size = omega (arith, ha, hb, hc, length-append a (b ++ ct), length-append b ct)

-- The key as the payload carries it.
abbrev pub noisy : List ℕ → ℕ → List ℕ
noisy key noise = set key 31 (blend (get_or key 31 0) noise)

pub fill_payload-fields :
    (key nonce ct : List ℕ) (noise : ℕ)
    → length key ≡ 32
    → length nonce ≡ 24
    → length ct ≡ 4040
    → fill_payload key noise nonce ct ≡ noisy key noise ++ (nonce ++ ct)
unfolding fill_payload
fill_payload-fields key nonce ct noise hk hn hc =
    let zeros : List ℕ = replicate 4064 0 in
    let first : copy_at 0 (replicate 4096 0) key ≡ key ++ zeros =
      fill [] 0 refl key 4096 4064 (omega (arith, hk)) ∙ ap (λ t. t ++ zeros) (append-nil key) in
    let inside : 31 < length key = omega (arith, hk) in
    let put : set (key ++ zeros) 31 (blend (get_or (key ++ zeros) 31 0) noise)
        ≡ cat (noisy key noise ∷ []) ++ zeros =
      ap (λ v. set (key ++ zeros) 31 (blend v noise)) (get_or_front key zeros 31 0 inside)
      ∙ set_front key zeros 31 _ inside
      ∙ ap (λ t. t ++ zeros) (sym (append-nil (noisy key noise))) in
    ap (λ t. copy_at 56 (copy_at 32 (set t 31 (blend (get_or t 31 0) noise)) nonce) ct) first
    ∙ ap (λ t. copy_at 56 (copy_at 32 t nonce) ct) put
    ∙ rest_filled (noisy key noise) nonce ct (length-set key 31 _ ∙ hk) hn hc

-- The two values that the noise can add, and what masking leaves of a byte with either.
abbrev noise_row : ℕ → Bool
noise_row n = (bit_and n 128 == 0) || (bit_and n 128 == 128)

abbrev mask_row : ℕ → ℕ → Bool
mask_row bit k = bit_and (bit_or (bit_and k 127) bit) 127 == bit_and k 127

noise_table : tabulate noise_row 256 ≡ true
unfolding tabulate
noise_table = refl

low_table : tabulate (mask_row 0) 256 ≡ true
unfolding tabulate
low_table = refl

high_table : tabulate (mask_row 128) 256 ≡ true
unfolding tabulate
high_table = refl

one_of_two : (n : ℕ) → ((n == 0) || (n == 128)) ≡ true → (n ≡ 0) ⊎ (n ≡ 128)
one_of_two n h = ground arith

same : (a b : ℕ) → (a == b) ≡ true → a ≡ b
same a b h = ground arith

-- Bit 255 of the key is masked away again.
pub mask-blend :
    (key noise : ℕ) → IsByte key → IsByte noise → bit_and (blend key noise) 127 ≡ bit_and key 127
unfolding blend
mask-blend key noise hk hn =
    elim (one_of_two (bit_and noise 128) (tabulate_at noise_row 256 noise noise_table hn)) [
      | inl e ↦
          ap (λ b. bit_and (bit_or (bit_and key 127) b) 127) e
          ∙ same _ _ (tabulate_at (mask_row 0) 256 key low_table hk)
      | inr e ↦
          ap (λ b. bit_and (bit_or (bit_and key 127) b) 127) e
          ∙ same _ _ (tabulate_at (mask_row 128) 256 key high_table hk)
    ]

pub mask-noisy :
    (key : List ℕ) (noise : ℕ)
    → length key ≡ 32
    → IsByte (get_or key 31 0)
    → IsByte noise
    → set (noisy key noise) 31 (bit_and (get_or (noisy key noise) 31 0) 127)
      ≡ set key 31 (bit_and (get_or key 31 0) 127)
mask-noisy key noise size hk hn =
    set-set key 31 _ _
    ∙ ap (λ v. set key 31 (bit_and v 127))
        (get_or-set_self key 31 (blend (get_or key 31 0) noise) 0 (omega (arith, size)))
    ∙ ap (set key 31) (mask-blend (get_or key 31 0) noise hk hn)
