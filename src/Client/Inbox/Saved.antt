-- ===== src/Client/Inbox/Saved.antt =====
-- A message is read as it was saved.
use sneakernet.Prelude.{
  ℕ, suc, ◌≡◌, refl, sym, ap, ◌∙◌, Bool, true, false, Bool-cases, ◌&&◌, Option, some, inl, inr,
  List, [], ◌∷◌, ◌++◌, append-nil, arith, ◌==◌, bytes_eq, bytes_eq_refl, bytes_eq→eq, if◌then◌else◌,
  length, length-append, length-replicate, copy_at, copy-append, copy, replicate, All, subst,
}
use sneakernet.Integers.{ℤ}
use sneakernet.Client.MessageFormat.{MessagePayload, put_refs, get_refs}
use sneakernet.Client.MessageFormat.Fields.{
  cat, total_refs, length-cat, put_refs_fill, get_refs-cat, IsRef,
}
use sneakernet.Client.MessageFormat.Layout.{IsPayload}
use sneakernet.Client.Inbox.{
  Row, MessageStore, all_zero, zero_to_nil, zero_int64, refs_zero, encode_thread_refs,
  decode_thread_refs, blob, find_row, stored, new_row, save_message, scan_message, get_message,
}

and_both : (a b : Bool) → a && b ≡ true → (a ≡ true) × (b ≡ true)
and_both true b h = (refl, h)
and_both false b h = cc

is_nought : (v : ℕ) → (v == 0) ≡ true → v ≡ 0
is_nought v h = ground arith

all_zero-replicate : (b : List ℕ) → all_zero b ≡ true → b ≡ replicate (length b) 0
unfolding all_zero replicate
all_zero-replicate [] h = refl
all_zero-replicate (v ∷ b) h =
    let (first, rest) = and_both (v == 0) (all_zero b) h in
    ap (λ t. t ∷ b) (is_nought v first) ∙ ap (λ t. 0 ∷ t) (all_zero-replicate b rest)

id_read : (b : List ℕ) → length b ≡ 32 → copy_at 0 (replicate 32 0) b ≡ b
unfolding copy_at
id_read b size =
    ap (λ t. copy t b) (sym (append-nil (replicate 32 0)))
    ∙ copy-append (replicate 32 0) b [] (length-replicate {A = ℕ} 32 0 ∙ sym size)
    ∙ append-nil b

-- A field of 32 bytes through NULL and back.
field_read : (b : List ℕ) → length b ≡ 32 → copy_at 0 (replicate 32 0) (blob (zero_to_nil b)) ≡ b
unfolding copy_at
field_read b size = elim (Bool-cases (all_zero b)) [
  | inl e ↦
      rw e (unfold copy replicate in refl)
      ∙ sym (all_zero-replicate b e ∙ ap (λ n. replicate n 0) size)
  | inr e ↦ rw e (id_read b size)
]

refs_zero-replicate :
    (refs : List (List ℕ)) → refs_zero refs ≡ true → refs ≡ replicate (length refs) (replicate 32 0)
unfolding replicate
refs_zero-replicate [] h = refl
refs_zero-replicate (r ∷ refs) h =
    let (first, rest) = and_both (bytes_eq r (replicate 32 0)) (refs_zero refs) h in
    ap (λ t. t ∷ refs) (bytes_eq→eq r (replicate 32 0) first)
    ∙ ap (λ t. replicate 32 0 ∷ t) (refs_zero-replicate refs rest)

pub decode_thread_refs-encode_thread_refs :
    (refs : List (List ℕ))
    → length refs ≡ 8
    → All IsRef refs
    → decode_thread_refs (blob (encode_thread_refs refs)) ≡ refs
unfolding decode_thread_refs encode_thread_refs
decode_thread_refs-encode_thread_refs refs count sizes = elim (Bool-cases (refs_zero refs)) [
  | inl e ↦ rw e (sym (refs_zero-replicate refs e ∙ ap (λ n. replicate n (replicate 32 0)) count))
  | inr e ↦
      let written : put_refs (replicate 256 0) 0 refs ≡ cat refs ++ replicate 0 0 =
        put_refs_fill refs [] 0 256 0 refl sizes (omega (arith, count)) in
      let size : length (cat refs ++ replicate 0 0) ≡ 256 =
        length-append (cat refs) (replicate 0 0)
        ∙ omega
            (arith, length-cat refs, total_refs refs sizes, count, length-replicate {A = ℕ} 0 0) in
      let read : get_refs (cat refs ++ replicate 0 0) 0 8 ≡ refs =
        ap (λ t. get_refs (cat t ++ replicate 0 0) 0 8) (sym (append-nil refs))
        ∙ ap (get_refs (cat (refs ++ []) ++ replicate 0 0) 0) (sym count)
        ∙ get_refs-cat refs [] [] (replicate 0 0) 0 refl sizes in
      rw (e, written, size) read
]

find_row-append :
    (id : List ℕ) (xs : List Row) (r : Row)
    → stored (find_row id xs) ≡ false
    → r.block_id ≡ id
    → find_row id (xs ++ r ∷ []) ≡ some r
unfolding find_row
find_row-append id [] r h e = rw (e, bytes_eq_refl id) refl
find_row-append id (x ∷ xs) r h e = elim (Bool-cases (bytes_eq x.block_id id)) [
  | inl same ↦ absurd (
      stored_now x (find_row id xs)
        (subst (λ b. stored (if b then some x else find_row id xs) ≡ false) same h))
  | inr other ↦ rw other (
      find_row-append id xs r
        (subst (λ b. stored (if b then some x else find_row id xs) ≡ false) other h) e)
]
  where
    stored_now : (x : Row) (o : Option Row) → stored (if true then some x else o) ≡ false → ⊥
    stored_now x o h = cc

-- If the database answers, saving a payload, whose fields have the sizes of their types, under the
-- 32 bytes of a block's ID that has no row yet reports that it is new; reading the message of the
-- block then gives the payload's sender, references, type, content, channel and identity, the time of
-- receipt, the time that it was sent at unless that is 0, and the recipient unless it is all zeros.
pub get_message-save_message :
    (mp : MessagePayload) (block_id : List ℕ) (now : ℤ) (s : MessageStore)
    → IsPayload mp
    → length block_id ≡ 32
    → stored (find_row block_id s.messages) ≡ false
    → (t : MessageStore) × (save_message true now block_id mp s ≡ some (true, t))
      × (get_message true block_id t
          ≡ some (
              some (record {
                id = suc s.last_id;
                block_id = block_id;
                sender_pub = mp.sender_pub;
                thread_refs = mp.thread_refs;
                sent_at = zero_int64 mp.timestamp;
                msg_type = mp.msg_type;
                content = mp.content;
                channel = mp.channel;
                received_at = now;
                sent_to = blob (zero_to_nil mp.sent_to);
                decrypted_by = mp.decrypted_by;
              })))
unfolding save_message get_message scan_message
get_message-save_message mp block_id now s sized id_size fresh =
    let row = new_row (suc s.last_id) now block_id mp in
    (
      record s { messages = s.messages ++ row ∷ []; last_id = suc s.last_id },
      rw fresh refl,
      rw
          (
            find_row-append block_id s.messages row fresh refl,
            field_read mp.sender_pub sized.sender_size,
            decode_thread_refs-encode_thread_refs mp.thread_refs sized.refs_count sized.ref_sizes,
            id_read block_id id_size,
          )
          refl,
    )
