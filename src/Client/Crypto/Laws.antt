-- ===== src/Client/Crypto/Laws.antt =====
-- What the encryption relies on in Go's cryptographic libraries, and nothing that concerns secrecy.
use sneakernet.Prelude.{ℕ, ◌+◌, ◌≡◌, some, List, length, get_or, set}
use Prim.Native.Nat.{bit_and}
use sneakernet.Bytes.{IsBytes}
use sneakernet.Client.Crypto.{Primitives, ed_priv_to_x25519, tag_size}

-- A sealed text opens under its key and nonce. A public key has 32 bytes. Diffie-Hellman gives both
-- sides the same secret. X25519 ignores the highest bit of a public key (RFC 7748, section 5). The
-- Montgomery form of an Ed25519 public key belongs to the clamped hash of the seed (RFC 8032, section
-- 5.1.5, and RFC 7748, section 4.1).
pub record IsLawful (c : Primitives) : Type 1 where
  pub seal_size :
      (key nonce plain : List ℕ) → length (c.seal key nonce plain) ≡ length plain + tag_size
  pub open-seal :
      (key nonce plain : List ℕ) → c.open_sealed key nonce (c.seal key nonce plain) ≡ some plain
  pub x_public-IsBytes : (scalar : List ℕ) → IsBytes 32 (c.x_public scalar)
  pub ecdh_comm : (a b : List ℕ) → c.ecdh a (c.x_public b) ≡ c.ecdh b (c.x_public a)
  pub ecdh_mask :
      (a key : List ℕ)
      → length key ≡ 32
      → c.ecdh a (set key 31 (bit_and (get_or key 31 0) 127)) ≡ c.ecdh a key
  pub montgomery-public :
      (key : c.ed.PrivateKey)
      → c.montgomery (c.ed.public key) ≡ some (c.x_public (ed_priv_to_x25519 c key))
