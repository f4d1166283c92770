-- ===== src/Tests/Inbox.antt =====
-- Runs of the message store, the scan and the proof of work for identities.
use sneakernet.Prelude.{
  ℕ, ◌≡◌, refl, true, none, some, inr, List, [], ◌∷◌, arith, bytes_eq, if◌then◌else◌, length,
  length-replicate, replicate, All, Elem, get_or, copy, copy_at,
}
use sneakernet.Integers.{pos, negsuc}
use sneakernet.Blockstore.{BlockRef}
use sneakernet.Blockstore.Paging.{all_pages}
use sneakernet.Blockstore.Pow.{leading_zeros8}
use sneakernet.Client.MessageFormat.{MessagePayload}
use sneakernet.Client.Inbox.{
  Row, MessageStore, all_zero, find_row, stored, save_message, get_message,
}
use sneakernet.Client.Inbox.Saved.{get_message-save_message}
use sneakernet.Client.IdPow.{
  IdRound, id_drew, id_deadline, mine_identity_pow, mine_rounds, identity_work_factor,
  parse_pow_gift, format_pow_gift, id_pow_zeros,
}
use sneakernet.Client.IdPow.Best.{
  IsBest, drawn, mine_identity_pow-IsBest, parse_pow_gift-format_pow_gift,
}
use sneakernet.Client.Scrape.{World, Scan, try_all_keys, scrape}
use sneakernet.Client.Scrape.Steps.{FromRefs, wanted}
use sneakernet.Client.Scrape.Result.{scrape-Grown}
use sneakernet.Tests.Messages.{note, note-IsPayload}
use sneakernet.Tests.Sealed.{toy_primitives, parcel}

abbrev no_messages : MessageStore
no_messages = record { messages = []; last_id = 0; since_unix = pos 0 }

get_message-save_message_example :
    (t : MessageStore) × (save_message true (pos 9) (replicate 32 1) note no_messages
      ≡ some (true, t))
    × (get_message true (replicate 32 1) t
        ≡ some (
            some (record {
              id = 1;
              block_id = replicate 32 1;
              sender_pub = note.sender_pub;
              thread_refs = note.thread_refs;
              sent_at = some (negsuc 9);
              msg_type = 3;
              content = note.content;
              channel = note.channel;
              received_at = pos 9;
              sent_to = [];
              decrypted_by = [];
            })))
unfolding all_zero
get_message-save_message_example =
    get_message-save_message note (replicate 32 1) (pos 9) no_messages note-IsPayload
      (length-replicate {A = ℕ} 32 1) (unfold find_row in refl)

abbrev listed : List BlockRef
listed =
    record { work_factor = 3; id = replicate 32 1; created_at = pos 5; tag = 0 }
    ∷ record { work_factor = 3; id = replicate 32 2; created_at = pos 5; tag = 0 }
    ∷ []

-- One page of two blocks, of which the first holds the signed note for the identity of key 12.
abbrev world : World
world = record {
  page = λ since token. some ([], listed);
  get = λ id. if bytes_eq id (replicate 32 1) then some parcel else none;
  keys =
      try_all_keys toy_primitives
        (record { identities = (b'a' ∷ [], 12) ∷ []; channels = (b'c' ∷ [], 1 ∷ []) ∷ [] });
  trim = λ text. text;
  alive = λ n. true;
  reads = true;
  writes = true;
  saves = λ id. true;
  clock = λ id. pos 9;
  scan_start = pos 8;
}

scrape-Grown_example :
    (t : Scan) × (new : List Row) × (scrape world 1 no_messages ≡ inr t)
    × (t.store.since_unix ≡ pos 8)
    × (t.store.messages ≡ new)
    × (t.found ≡ length new)
    × All (FromRefs world listed) new
    × ((ref : BlockRef) (mp : MessagePayload)
        → Elem ref listed
        → wanted world ref ≡ some mp
        → stored (find_row ref.id t.store.messages) ≡ true)
scrape-Grown_example =
    scrape-Grown world (λ id. refl) (λ n. refl) 1 no_messages listed refl refl
      (unfold all_pages in refl)

-- A stand-in for argon2id: the hash is the first byte of the stamp.
abbrev toy_argon2 : List ℕ → List ℕ
toy_argon2 input = get_or input 0 0 ∷ []

abbrev rounds : List IdRound
rounds = id_drew (replicate 16 3) ∷ id_drew (replicate 16 200) ∷ id_deadline ∷ []

mined :
    mine_identity_pow toy_argon2 (replicate 32 7) (replicate 16 40) none rounds
    ≡ some (replicate 16 3, 6, true)
unfolding mine_identity_pow mine_rounds identity_work_factor id_pow_zeros leading_zeros8 replicate
    copy_at copy get_or
mined = refl

mine_identity_pow-IsBest_example :
    IsBest toy_argon2 (replicate 32 7) (replicate 16 40 ∷ drawn rounds) (replicate 16 3, 6, true)
mine_identity_pow-IsBest_example =
    mine_identity_pow-IsBest toy_argon2 (replicate 32 7) (replicate 16 40) none rounds
      (replicate 16 3, 6, true) (length-replicate {A = ℕ} 16 40) mined

parse_pow_gift-format_pow_gift_example :
    parse_pow_gift (λ text. text) (format_pow_gift (1 ∷ 255 ∷ [])) ≡ some (1 ∷ 255 ∷ [])
parse_pow_gift-format_pow_gift_example =
    parse_pow_gift-format_pow_gift (λ text. text) (λ text printed. refl) 1 (255 ∷ [])
      (omega arith, (omega arith, tt))
