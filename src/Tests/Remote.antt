-- ===== src/Tests/Remote.antt =====
-- Stand-ins for the encodings and the store behind a relay.
pub mod Runs
pub mod Stores
use sneakernet.Prelude.{
  ℕ, zero, suc, ◌<◌, ◌≡◌, refl, ap, ◌∙◌, Option, none, some, true, false, List, [], ◌∷◌, ◌++◌, All,
  map,
}
use sneakernet.Hex
use sneakernet.Hex.{decode-encode, encode-All}
use sneakernet.Integers.{ℤ, pos, negsuc}
use sneakernet.Bytes.{IsByte}
use sneakernet.Blockstore.Pow.{compute_id}
use sneakernet.Blockstore.Badger.{answer}
use sneakernet.Blockstore.Badger.Listing.{list_page}
use sneakernet.Relay.Bloom.Lacking.{Block}
use sneakernet.Relay.Http.{Backend, Codecs, DeltaRequest, Addresses}
use sneakernet.Relay.Server.{Messages}
use sneakernet.Tests.{toy, stamp, payload}
use sneakernet.Tests.Listing.{three}

abbrev read_int : List ℕ → Option ℤ
read_int (zero ∷ n ∷ []) = some (pos n)
read_int (suc k ∷ n ∷ []) = some (negsuc n)
read_int _ = none

abbrev int : ℤ → List ℕ
int (pos n) = 0 ∷ n ∷ []
int (negsuc n) = 1 ∷ n ∷ []

read_int_law : (n : ℤ) → read_int (int n) ≡ some n
read_int_law (pos n) = refl
read_int_law (negsuc n) = refl

abbrev sign : ℕ → ℕ → ℤ
sign zero n = pos n
sign (suc k) n = negsuc n

abbrev read_request : List ℕ → Option DeltaRequest
read_request (a ∷ f ∷ b ∷ t ∷ bloom) =
    some (record { bloom = bloom; pow_floor = sign a f; since = sign b t })
read_request _ = none

abbrev request : DeltaRequest → List ℕ
request r = int r.pow_floor ++ (int r.since ++ r.bloom)

request_law :
    (bloom : List ℕ) (f t : ℤ)
    → (let r : DeltaRequest = record { bloom = bloom; pow_floor = f; since = t } in
        read_request (request r) ≡ some r)
request_law bloom (pos f) (pos t) = refl
request_law bloom (pos f) (negsuc t) = refl
request_law bloom (negsuc f) (pos t) = refl
request_law bloom (negsuc f) (negsuc t) = refl

-- Texts, each character one higher, and a zero behind each text.
join : List (List ℕ) → List ℕ
join [] = []
join (t ∷ ts) = map suc t ++ 0 ∷ join ts

add_char : ℕ → List (List ℕ) → List (List ℕ)
add_char c [] = (c ∷ []) ∷ []
add_char c (t ∷ ts) = (c ∷ t) ∷ ts

split : List ℕ → List (List ℕ)
split [] = []
split (zero ∷ cs) = [] ∷ split cs
split (suc c ∷ cs) = add_char c (split cs)

split_one : (t rest : List ℕ) → split (map suc t ++ 0 ∷ rest) ≡ t ∷ split rest
unfolding split add_char
split_one [] rest = refl
split_one (c ∷ t) rest = ap (add_char c) (split_one t rest)

split-join : (ts : List (List ℕ)) → split (join ts) ≡ ts
unfolding split join
split-join [] = refl
split-join (t ∷ ts) = split_one t (join ts) ∙ ap (λ rest. t ∷ rest) (split-join ts)

pub codecs : Codecs
unfolding join split
codecs = record {
  stored = λ id wf. id;
  read_id = λ body. some body;
  delta = request;
  read_delta = read_request;
  ids = join;
  read_ids = λ body. some (split body);
  floor = int;
  read_floor = read_int;
  peers = join;
  read_peers = λ body. some (split body);
  hello = λ url. url;
  read_hello = λ body. body;
  error = λ message. message;
  base64 = Hex.encode;
  read_base64 = Hex.decode;
  id_law = λ id wf h. refl;
  delta_law = λ r h. request_law r.bloom r.pow_floor r.since;
  ids_law = λ texts h. ap some (split-join texts);
  floor_law = read_int_law;
  peers_law = λ texts h. ap some (split-join texts);
  hello_law = λ url h. refl;
  base64_law = decode-encode;
  base64-IsText = encode-All;
}

abbrev pub addresses : Addresses
addresses = record {
  host_of_addr = λ addr. none;
  host_of_url = λ url. none;
  parse_ip = λ host. none;
}

abbrev pub messages : Messages
messages = record {
  invalid_id = [];
  missing_block = [];
  internal_error = [];
  bad_size = [];
  insufficient_pow = [];
  storage_error = [];
  invalid_json = [];
  invalid_bloom_encoding = [];
  bloom_size = [];
  store_error = [];
}

-- A store that is the list of what was put, lists three references and returns one block.
abbrev pub shelf : Backend (List Block)
shelf = record {
  get = λ s id. answer (stamp, payload);
  put = λ s a b tag. (s ++ (a, b) ∷ [], some (compute_id toy b));
  list = λ s token limit floor since. list_page three token limit floor since;
  median = some (λ s. some (pos 4));
}
