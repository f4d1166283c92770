-- ===== src/Client/Keystore/Invariant.antt =====
-- What every sequence of operations keeps.
use sneakernet.Prelude.{ℕ, Option, inl, inr, List, [], ◌∷◌}
use sneakernet.Client.Keystore.{
  Keystore, Services, add, add_channel, add_contact, rename_contact, change_password,
  set_identity_pow, remove_identity, remove_channel, remove_contact,
}
use sneakernet.Client.Keystore.Valid.{
  after, IsValid, add-IsValid, set_identity_pow-IsValid, remove_identity-IsValid,
  add_channel-IsValid, remove_channel-IsValid, add_contact-IsValid, remove_contact-IsValid,
  rename_contact-IsValid, change_password-IsValid,
}
use sneakernet.Client.Keystore.Transfer.{ExportJson, import_identity, import_identity-IsValid}

-- An operation on a keystore, with what it draws from crypto/rand.
pub data Op : Type 0 where
  add_op : (name : List ℕ) (draw : Option (List ℕ)) → Op
  set_pow_op : (name stamp : List ℕ) → Op
  remove_op : (name : List ℕ) → Op
  add_channel_op : (name passphrase : List ℕ) → Op
  remove_channel_op : (name : List ℕ) → Op
  add_contact_op : (name pub_key : List ℕ) → Op
  remove_contact_op : (pub_key : List ℕ) → Op
  rename_contact_op : (pub_key new_name : List ℕ) → Op
  import_op : (bundle export_password : List ℕ) → Op
  change_password_op : (new_password : List ℕ) (draw : Option (List ℕ)) → Op

module _ (p : Services) (json : ExportJson) where
  unfoldable pub apply : Op → Keystore → Keystore
  apply (add_op name draw) k = after k (add p name draw k)
  apply (set_pow_op name stamp) k = after k (set_identity_pow name stamp k)
  apply (remove_op name) k = (remove_identity name k).1
  apply (add_channel_op name passphrase) k = after k (add_channel p name passphrase k)
  apply (remove_channel_op name) k = (remove_channel name k).1
  apply (add_contact_op name pub_key) k = after k (add_contact p name pub_key k)
  apply (remove_contact_op pub_key) k = (remove_contact pub_key k).1
  apply (rename_contact_op pub_key new_name) k = elim (rename_contact p pub_key new_name k) [
    | inl e ↦ k
    | inr r ↦ r.1
  ]
  apply (import_op bundle export_password) k =
      after k (import_identity p json bundle export_password k)
  apply (change_password_op new_password draw) k = after k (change_password p new_password draw k)

  abbrev pub run : List Op → Keystore → Keystore
  run [] k = k
  run (op ∷ ops) k = run ops (apply op k)

  apply-IsValid : (op : Op) (k : Keystore) → IsValid p k → IsValid p (apply op k)
  unfolding apply
  apply-IsValid (add_op name draw) k v = add-IsValid p k v name draw
  apply-IsValid (set_pow_op name stamp) k v = set_identity_pow-IsValid p k v name stamp
  apply-IsValid (remove_op name) k v = remove_identity-IsValid p k v name
  apply-IsValid (add_channel_op name passphrase) k v = add_channel-IsValid p k v name passphrase
  apply-IsValid (remove_channel_op name) k v = remove_channel-IsValid p k v name
  apply-IsValid (add_contact_op name pub_key) k v = add_contact-IsValid p k v name pub_key
  apply-IsValid (remove_contact_op pub_key) k v = remove_contact-IsValid p k v pub_key
  apply-IsValid (rename_contact_op pub_key new_name) k v =
      rename_contact-IsValid p k v pub_key new_name
  apply-IsValid (import_op bundle export_password) k v =
      import_identity-IsValid p json k v bundle export_password
  apply-IsValid (change_password_op new_password draw) k v =
      change_password-IsValid p k v new_password draw

  -- A keystore has unique names of identities and of channels, contacts with unique keys of 32 bytes,
  -- and allowed names of identities and contacts: every sequence of operations on such a keystore,
  -- with those that fail among them, leaves such a keystore.
  pub run-IsValid : (ops : List Op) (k : Keystore) → IsValid p k → IsValid p (run ops k)
  run-IsValid [] k v = v
  run-IsValid (op ∷ ops) k v = run-IsValid ops (apply op k) (apply-IsValid op k v)
