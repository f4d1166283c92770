-- ===== src/Client/Inbox.antt =====
-- client/store.go: the table of messages and the checkpoint. The SQL statements are the list
-- operations that they stand for, over the columns that the table has; whether the database answers is
-- an argument. Times are Unix seconds.
pub mod Saved
use sneakernet.Prelude.{
  ℕ, suc, ◌+◌, ◌≡◌, Bool, true, false, not, ◌&&◌, Option, none, some, List, [], ◌∷◌, ◌++◌, ltb,
  ◌==◌, bytes_eq, if◌then◌else◌, length, copy_at, replicate,
}
use sneakernet.Integers.{ℤ, pos, negsuc}
use sneakernet.Client.MessageFormat.{MessagePayload, put_refs, get_refs}
use sneakernet.Relay.Bloom.{zero_time}

-- A row of `messages`; `none` is NULL.
pub record Row : Type 0 where
  pub id : ℕ
  pub block_id : List ℕ
  pub content : List ℕ
  pub received_at : ℤ
  pub sender_pub : Option (List ℕ)
  pub thread_refs : Option (List ℕ)
  pub sent_at : Option ℤ
  pub msg_type : ℕ
  pub channel : List ℕ
  pub sent_to : Option (List ℕ)
  pub decrypted_by : List ℕ

-- `sent_at` is `none` for the zero time.
pub record Message : Type 0 where
  pub id : ℕ
  pub block_id : List ℕ
  pub sender_pub : List ℕ
  pub thread_refs : List (List ℕ)
  pub sent_at : Option ℤ
  pub msg_type : ℕ
  pub content : List ℕ
  pub channel : List ℕ
  pub received_at : ℤ
  pub sent_to : List ℕ
  pub decrypted_by : List ℕ

-- `last_id` is what AUTOINCREMENT counts.
pub record MessageStore : Type 0 where
  pub messages : List Row
  pub last_id : ℕ
  pub since_unix : ℤ

abbrev pub is_zero : ℤ → Bool
is_zero (pos n) = n == 0
is_zero (negsuc n) = false

unfoldable pub get_checkpoint : Bool → MessageStore → Option ℤ
get_checkpoint answers s =
    if answers then (if is_zero s.since_unix then some zero_time else some s.since_unix) else none

unfoldable pub set_checkpoint : Bool → ℤ → MessageStore → Option MessageStore
set_checkpoint answers t s = if answers then some (record s { since_unix = t }) else none

-- Whether all bytes are 0: the loop of `zeroToNil`.
unfoldable pub all_zero : List ℕ → Bool
all_zero [] = true
all_zero (v ∷ b) = (v == 0) && all_zero b

abbrev pub zero_to_nil : List ℕ → Option (List ℕ)
zero_to_nil b = if all_zero b then none else some b

abbrev pub zero_int64 : ℤ → Option ℤ
zero_int64 v = if is_zero v then none else some v

abbrev pub refs_zero : List (List ℕ) → Bool
refs_zero [] = true
refs_zero (ref ∷ refs) = bytes_eq ref (replicate 32 0) && refs_zero refs

unfoldable pub encode_thread_refs : List (List ℕ) → Option (List ℕ)
encode_thread_refs refs = if refs_zero refs then none else some (put_refs (replicate 256 0) 0 refs)

-- NULL is read as a blob of no bytes.
abbrev pub blob : Option (List ℕ) → List ℕ
blob none = []
blob (some b) = b

unfoldable pub decode_thread_refs : List ℕ → List (List ℕ)
decode_thread_refs b = if ltb (length b) 256 then replicate 8 (replicate 32 0) else get_refs b 0 8

unfoldable pub find_row : List ℕ → List Row → Option Row
find_row block_id [] = none
find_row block_id (r ∷ rows) =
    if bytes_eq r.block_id block_id then some r else find_row block_id rows

abbrev pub stored : Option Row → Bool
stored none = false
stored (some r) = true

-- The row that the statement's arguments make.
abbrev pub new_row : ℕ → ℤ → List ℕ → MessagePayload → Row
new_row id now block_id mp = record {
  id = id;
  block_id = block_id;
  content = mp.content;
  received_at = now;
  sender_pub = zero_to_nil mp.sender_pub;
  thread_refs = encode_thread_refs mp.thread_refs;
  sent_at = zero_int64 mp.timestamp;
  msg_type = mp.msg_type;
  channel = mp.channel;
  sent_to = zero_to_nil mp.sent_to;
  decrypted_by = mp.decrypted_by;
}

-- INSERT OR IGNORE: `block_id` is unique. The answer is whether the row is new.
unfoldable pub save_message :
    Bool → ℤ → List ℕ → MessagePayload → MessageStore → Option (Bool × MessageStore)
unfolding find_row encode_thread_refs all_zero
save_message answers now block_id mp s =
    if answers
    then (if stored (find_row block_id s.messages)
        then some (false, s)
        else some (
          true,
          record s {
            messages = s.messages ++ new_row (suc s.last_id) now block_id mp ∷ [];
            last_id = suc s.last_id;
          },
        ))
    else none

unfoldable pub scan_message : Row → Message
unfolding decode_thread_refs
scan_message r = record {
  id = r.id;
  block_id = copy_at 0 (replicate 32 0) r.block_id;
  sender_pub = copy_at 0 (replicate 32 0) (blob r.sender_pub);
  thread_refs = decode_thread_refs (blob r.thread_refs);
  sent_at = r.sent_at;
  msg_type = r.msg_type;
  content = r.content;
  channel = r.channel;
  received_at = r.received_at;
  sent_to = blob r.sent_to;
  decrypted_by = r.decrypted_by;
}

-- `none` is an error, `some none` is "not found".
unfoldable pub get_message : Bool → List ℕ → MessageStore → Option (Option Message)
unfolding find_row scan_message
get_message answers block_id s =
    if answers
    then (elim (find_row block_id s.messages) [
      | none ↦ some none
      | some r ↦ some (some (scan_message r))
    ])
    else none
