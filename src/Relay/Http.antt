-- ===== src/Relay/Http.antt =====
-- What the relay's client and server share: the backing store, the encodings of the bodies and the
-- messages of HTTP.
use sneakernet.Prelude.{ℕ, ◌<◌, ◌≡◌, Option, some, Bool, List, All}
use sneakernet.Bytes.{IsByte}
use sneakernet.Integers.{ℤ}
use sneakernet.Blockstore.{BlockRef}
use sneakernet.Blockstore.Badger.{Answer}

abbrev pub IsText : List ℕ → Type 0
IsText t = All (λ c. c < 128) t

-- The interface `blockstore.Store`, as the relay uses it: `Get`, `Put` (with the ID, or none for an
-- error), `ListBlocks` from a token, with a page size, a floor and a time, and the optional method
-- `MedianWorkFactor`.
pub record Backend (S : Type 0) : Type 0 where
  pub get : S → List ℕ → Answer (List ℕ × List ℕ)
  pub put : S → List ℕ → List ℕ → ℕ → S × Option (List ℕ)
  pub list : S → List ℕ → ℕ → ℤ → ℤ → Option (List ℕ × List BlockRef)
  pub median : Option (S → Option ℤ)

-- The fields of the body of `POST /v1/delta`.
pub record DeltaRequest : Type 0 where
  pub bloom : List ℕ
  pub pow_floor : ℤ
  pub since : ℤ

-- encoding/json for the structures that are sent, and the padded base64 of encoding/base64. Texts of
-- ASCII characters come back as they were.
pub record Codecs : Type 0 where
  pub stored : List ℕ → ℕ → List ℕ
  pub read_id : List ℕ → Option (List ℕ)
  pub delta : DeltaRequest → List ℕ
  pub read_delta : List ℕ → Option DeltaRequest
  pub ids : List (List ℕ) → List ℕ
  pub read_ids : List ℕ → Option (List (List ℕ))
  pub floor : ℤ → List ℕ
  pub read_floor : List ℕ → Option ℤ
  pub peers : List (List ℕ) → List ℕ
  pub read_peers : List ℕ → Option (List (List ℕ))
  pub hello : List ℕ → List ℕ
  -- The URL of a body, empty where it has none or cannot be read.
  pub read_hello : List ℕ → List ℕ
  pub error : List ℕ → List ℕ
  pub base64 : List ℕ → List ℕ
  pub read_base64 : List ℕ → Option (List ℕ)
  pub id_law : (id : List ℕ) (wf : ℕ) → IsText id → read_id (stored id wf) ≡ some id
  pub delta_law : (r : DeltaRequest) → IsText r.bloom → read_delta (delta r) ≡ some r
  pub ids_law : (texts : List (List ℕ)) → All IsText texts → read_ids (ids texts) ≡ some texts
  pub floor_law : (n : ℤ) → read_floor (floor n) ≡ some n
  pub peers_law : (texts : List (List ℕ)) → All IsText texts → read_peers (peers texts) ≡ some texts
  pub hello_law : (url : List ℕ) → IsText url → read_hello (hello url) ≡ url
  pub base64_law : (bs : List ℕ) → All IsByte bs → read_base64 (base64 bs) ≡ some bs
  pub base64-IsText : (bs : List ℕ) → All IsByte bs → IsText (base64 bs)

-- What net.ParseIP tells of an address, net.SplitHostPort of a host and port, and url.Parse of the
-- host of a URL. `none` is an error, or no address.
pub record IpKind : Type 0 where
  pub private : Bool
  pub loopback : Bool
  pub link_local : Bool

pub record Addresses : Type 0 where
  pub host_of_addr : List ℕ → Option (List ℕ)
  pub host_of_url : List ℕ → Option (List ℕ)
  pub parse_ip : List ℕ → Option IpKind

-- A request, by the route that its method and path select, with what the handler reads of it.
pub data Request : Type 0 where
  get_block : (id : List ℕ) → Request
  post_block : (body : List ℕ) → Request
  post_delta : (body : List ℕ) → Request
  get_pow_limit : Request
  get_peers : Request
  post_hello : (body : List ℕ) → Request
  -- A preflight request, of the method OPTIONS.
  options : Request

pub record Reply : Type 0 where
  pub status : ℕ
  pub body : List ℕ
