-- ===== src/Tests/Codec.antt =====
-- Stand-ins for encoding/json: a list of fields, each closed by a zero.
use sneakernet.Prelude.{
  ℕ, zero, suc, ◌≡◌, refl, sym, ap, ◌∙◌, Option, none, some, List, [], ◌∷◌, length,
}
use sneakernet.Integers.{ℤ, pos, negsuc}
use sneakernet.Client.Keystore.Files.{
  IdentityRecord, ChannelRecord, ContactRecord, KeystoreFile, Json,
}
use sneakernet.Client.Keystore.Transfer.{IdentityExport, ExportJson}

abbrev flat : List ℕ → List ℕ → List ℕ
flat [] rest = 0 ∷ rest
flat (x ∷ f) rest = suc x ∷ flat f rest

abbrev pack : List (List ℕ) → List ℕ
pack [] = []
pack (f ∷ fs) = flat f (pack fs)

abbrev prepend : ℕ → List (List ℕ) → List (List ℕ)
prepend x [] = []
prepend x (f ∷ fs) = (x ∷ f) ∷ fs

abbrev unpack : List ℕ → List (List ℕ)
unpack [] = []
unpack (zero ∷ raw) = [] ∷ unpack raw
unpack (suc x ∷ raw) = prepend x (unpack raw)

unpack-flat : (f raw : List ℕ) → unpack (flat f raw) ≡ f ∷ unpack raw
unpack-flat [] raw = refl
unpack-flat (x ∷ f) raw = ap (prepend x) (unpack-flat f raw)

unpack-pack : (fs : List (List ℕ)) → unpack (pack fs) ≡ fs
unpack-pack [] = refl
unpack-pack (f ∷ fs) = unpack-flat f (pack fs) ∙ ap (λ t. f ∷ t) (unpack-pack fs)

abbrev put_int : ℤ → List ℕ
put_int (pos n) = 0 ∷ n ∷ []
put_int (negsuc n) = 1 ∷ n ∷ []

abbrev get_int : List ℕ → ℤ
get_int (zero ∷ n ∷ rest) = pos n
get_int (suc k ∷ n ∷ rest) = negsuc n
get_int (k ∷ []) = pos 0
get_int [] = pos 0

get_int-put_int : (v : ℤ) → get_int (put_int v) ≡ v
get_int-put_int (pos n) = refl
get_int-put_int (negsuc n) = refl

abbrev put_ids : List IdentityRecord → List (List ℕ) → List (List ℕ)
put_ids [] rest = rest
put_ids (r ∷ rs) rest =
    r.name
    ∷ r.nonce
    ∷ r.ciphertext
    ∷ r.sign_nonce
    ∷ r.sign_ciphertext
    ∷ r.id_pow_stamp
    ∷ put_ids rs rest

abbrev get_ids : ℕ → List (List ℕ) → List IdentityRecord × List (List ℕ)
get_ids (suc n) (a ∷ b ∷ c ∷ d ∷ e ∷ f ∷ rest) =
    let got = get_ids n rest in
    (
      record {
        name = a;
        nonce = b;
        ciphertext = c;
        sign_nonce = d;
        sign_ciphertext = e;
        id_pow_stamp = f;
      }
          ∷ got.0,
      got.1,
    )
get_ids n fields = ([], fields)

get_ids-put_ids :
    (rs : List IdentityRecord) (rest : List (List ℕ))
    → get_ids (length rs) (put_ids rs rest) ≡ (rs, rest)
get_ids-put_ids [] rest = refl
get_ids-put_ids (r ∷ rs) rest = ap (λ got. (r ∷ got.0, got.1)) (get_ids-put_ids rs rest)

abbrev put_chs : List ChannelRecord → List (List ℕ) → List (List ℕ)
put_chs [] rest = rest
put_chs (r ∷ rs) rest = r.name ∷ r.nonce ∷ r.ciphertext ∷ put_chs rs rest

abbrev get_chs : ℕ → List (List ℕ) → List ChannelRecord × List (List ℕ)
get_chs (suc n) (a ∷ b ∷ c ∷ rest) =
    let got = get_chs n rest in (record { name = a; nonce = b; ciphertext = c } ∷ got.0, got.1)
get_chs n fields = ([], fields)

get_chs-put_chs :
    (rs : List ChannelRecord) (rest : List (List ℕ))
    → get_chs (length rs) (put_chs rs rest) ≡ (rs, rest)
get_chs-put_chs [] rest = refl
get_chs-put_chs (r ∷ rs) rest = ap (λ got. (r ∷ got.0, got.1)) (get_chs-put_chs rs rest)

abbrev put_cons : List ContactRecord → List (List ℕ)
put_cons [] = []
put_cons (r ∷ rs) = r.name ∷ r.public_key ∷ r.signing_public_key ∷ put_cons rs

abbrev get_cons : List (List ℕ) → List ContactRecord
get_cons (a ∷ b ∷ c ∷ rest) =
    record { name = a; public_key = b; signing_public_key = c } ∷ get_cons rest
get_cons fields = []

get_cons-put_cons : (rs : List ContactRecord) → get_cons (put_cons rs) ≡ rs
get_cons-put_cons [] = refl
get_cons-put_cons (r ∷ rs) = ap (λ t. r ∷ t) (get_cons-put_cons rs)

abbrev put_file : KeystoreFile → List (List ℕ)
put_file f =
    put_int f.version
    ∷ f.salt
    ∷ (f.kdf_time ∷ f.kdf_memory ∷ f.kdf_threads ∷ length f.identities ∷ length f.channels ∷ [])
    ∷ f.verify
    ∷ put_ids f.identities (put_chs f.channels (put_cons f.contacts))

abbrev get_file : List (List ℕ) → Option KeystoreFile
get_file (v ∷ salt ∷ (time ∷ memory ∷ threads ∷ ids ∷ chs ∷ []) ∷ verify ∷ rest) =
    let got = get_ids ids rest in
    let more = get_chs chs got.1 in
    some (record {
      version = get_int v;
      salt = salt;
      kdf_time = time;
      kdf_memory = memory;
      kdf_threads = threads;
      verify = verify;
      identities = got.0;
      channels = more.0;
      contacts = get_cons more.1;
    })
get_file fields = none

get_file-put_file : (f : KeystoreFile) → get_file (put_file f) ≡ some f
get_file-put_file f =
    rw
      (
        get_int-put_int f.version,
        get_ids-put_ids f.identities (put_chs f.channels (put_cons f.contacts)),
        get_chs-put_chs f.channels (put_cons f.contacts),
        get_cons-put_cons f.contacts,
      )
      refl

abbrev pub toy_json : Json
toy_json = record {
  marshal = λ f. some (pack (put_file f));
  unmarshal = λ raw. get_file (unpack raw);
}

pub toy_json_reads :
    (f : KeystoreFile) (raw : List ℕ)
    → toy_json.marshal f ≡ some raw
    → toy_json.unmarshal raw ≡ some f
toy_json_reads f raw h =
    ap (λ o. elim o as (λ _. Option KeystoreFile) [ none ↦ none | some r ↦ get_file (unpack r) ])
      (sym h)
    ∙ ap get_file (unpack-pack (put_file f))
    ∙ get_file-put_file f

abbrev put_export : IdentityExport → List (List ℕ)
put_export b =
    put_int b.version
    ∷ b.name
    ∷ b.salt
    ∷ (b.kdf_time ∷ b.kdf_memory ∷ b.kdf_threads ∷ [])
    ∷ b.nonce
    ∷ b.ciphertext
    ∷ []

abbrev get_export : List (List ℕ) → Option IdentityExport
get_export (v ∷ name ∷ salt ∷ (time ∷ memory ∷ threads ∷ []) ∷ nonce ∷ ct ∷ []) = some (record {
  version = get_int v;
  name = name;
  salt = salt;
  kdf_time = time;
  kdf_memory = memory;
  kdf_threads = threads;
  nonce = nonce;
  ciphertext = ct;
})
get_export fields = none

abbrev pub toy_export_json : ExportJson
toy_export_json = record {
  marshal = λ b. some (pack (put_export b));
  unmarshal = λ raw. get_export (unpack raw);
}

pub toy_export_json_reads :
    (b : IdentityExport) (raw : List ℕ)
    → toy_export_json.marshal b ≡ some raw
    → toy_export_json.unmarshal raw ≡ some b
toy_export_json_reads b raw h =
    ap
      (λ o. elim o as (λ _. Option IdentityExport) [ none ↦ none | some r ↦ get_export (unpack r) ])
      (sym h)
    ∙ ap get_export (unpack-pack (put_export b))
    ∙ rw (get_int-put_int b.version) refl
