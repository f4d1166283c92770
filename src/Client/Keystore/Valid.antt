-- ===== src/Client/Keystore/Valid.antt =====
-- What each operation keeps: the names and keys by which entries are found are unique, and contacts
-- and identities have names that are allowed.
use sneakernet.Prelude.{
  ℕ, ◌≡◌, refl, Bool, true, false, Option, none, some, ◌⊎◌, inl, inr, List, [], ◌∷◌, ◌++◌, ==_iff,
  ◌==◌, if_elim, length, All, All-append,
}
use sneakernet.Client.Keystore.{
  Identity, Channel, Contact, Keystore, Fault, Services, found, get, get_channel, get_contact,
  validate_name, add, add_channel, add_contact, rename_contact, change_password, set_identity_pow,
  remove_identity, remove_channel, remove_contact, or_fault, ◌>>!◌,
}
use sneakernet.Client.Keystore.Named.{
  Distinct, Lacks-found, Distinct-append, All-remove, Distinct-remove, All-update, Distinct-update,
}

-- The keystore behind an operation: an error leaves it as it was.
abbrev pub after : Keystore → Fault ⊎ Keystore → Keystore
after k (inl e) = k
after k (inr k') = k'

module _ (p : Services) where
  pub record IsValid (k : Keystore) : Type 0 where
    pub identity_names : Distinct Identity.name k.identities
    pub names_allowed : All (λ id. validate_name p id.name ≡ true) k.identities
    pub channel_names : Distinct Channel.name k.channels
    pub contact_keys : Distinct Contact.public_key k.contacts
    pub contact_names : All (λ c. validate_name p c.name ≡ true) k.contacts
    pub contact_sizes : All (λ c. length c.public_key ≡ 32) k.contacts

  module _ (k : Keystore) (v : IsValid k) where
    -- What is drawn and stored leaves a valid keystore if every value does.
    drawn-IsValid :
        {A : Type 0} (e : Fault) (draw : Option A) (store : A → Keystore)
        → ((a : A) → IsValid (store a))
        → IsValid (after k (or_fault e draw >>! λ a. inr (store a)))
    drawn-IsValid e none store h = v
    drawn-IsValid e (some a) store h = h a

    abbrev Kept : Fault ⊎ Keystore → Type 0
    Kept r = IsValid (after k r)

    -- One more identity, under an allowed name that is not taken.
    pub more-IsValid :
        (id : Identity)
        → validate_name p id.name ≡ true
        → found (get k id.name) ≡ false
        → IsValid (record k { identities = k.identities ++ id ∷ [] })
    more-IsValid id allowed free = record {
      identity_names =
          Distinct-append Identity.name k.identities id v.identity_names
            (Lacks-found Identity.name id.name k.identities free);
      names_allowed = All-append _ k.identities (id ∷ []) v.names_allowed (allowed, tt);
      channel_names = v.channel_names;
      contact_keys = v.contact_keys;
      contact_names = v.contact_names;
      contact_sizes = v.contact_sizes;
    }

    pub add-IsValid : (name : List ℕ) (draw : Option (List ℕ)) → Kept (add p name draw k)
    unfolding add
    add-IsValid name draw =
        if_elim Kept (validate_name p name) _ _
          (λ allowed.
            if_elim Kept (found (get k name)) _ _ (λ e. v)
              (λ free. drawn-IsValid _ draw _ (λ seed.
                more-IsValid (record { name = name; sign_key = p.new_key seed; id_pow_stamp = [] })
                  allowed free)))
          (λ e. v)

    pub set_identity_pow-IsValid : (name stamp : List ℕ) → Kept (set_identity_pow name stamp k)
    unfolding set_identity_pow
    set_identity_pow-IsValid name stamp =
        if_elim Kept (found (get k name)) _ _
          (λ e. record {
            identity_names =
                Distinct-update Identity.name _ name k.identities (λ id. refl) v.identity_names;
            names_allowed =
                All-update Identity.name _ _ name k.identities (λ id h. h) v.names_allowed;
            channel_names = v.channel_names;
            contact_keys = v.contact_keys;
            contact_names = v.contact_names;
            contact_sizes = v.contact_sizes;
          })
          (λ e. v)

    pub remove_identity-IsValid : (name : List ℕ) → IsValid ((remove_identity name k).1)
    unfolding remove_identity
    remove_identity-IsValid name = record {
      identity_names = Distinct-remove Identity.name name k.identities v.identity_names;
      names_allowed = All-remove Identity.name _ name k.identities v.names_allowed;
      channel_names = v.channel_names;
      contact_keys = v.contact_keys;
      contact_names = v.contact_names;
      contact_sizes = v.contact_sizes;
    }

    pub add_channel-IsValid : (name passphrase : List ℕ) → Kept (add_channel p name passphrase k)
    unfolding add_channel
    add_channel-IsValid name passphrase =
        if_elim Kept (found (get_channel k name)) _ _ (λ e. v)
          (λ free. record {
            identity_names = v.identity_names;
            names_allowed = v.names_allowed;
            channel_names =
                Distinct-append Channel.name k.channels _ v.channel_names
                  (Lacks-found Channel.name name k.channels free);
            contact_keys = v.contact_keys;
            contact_names = v.contact_names;
            contact_sizes = v.contact_sizes;
          })

    pub remove_channel-IsValid : (name : List ℕ) → IsValid ((remove_channel name k).1)
    unfolding remove_channel
    remove_channel-IsValid name = record {
      identity_names = v.identity_names;
      names_allowed = v.names_allowed;
      channel_names = Distinct-remove Channel.name name k.channels v.channel_names;
      contact_keys = v.contact_keys;
      contact_names = v.contact_names;
      contact_sizes = v.contact_sizes;
    }

    pub change_password-IsValid :
        (new_password : List ℕ) (draw : Option (List ℕ))
        → Kept (change_password p new_password draw k)
    unfolding change_password
    change_password-IsValid new_password draw = drawn-IsValid _ draw _ (λ salt. record {
      identity_names = v.identity_names;
      names_allowed = v.names_allowed;
      channel_names = v.channel_names;
      contact_keys = v.contact_keys;
      contact_names = v.contact_names;
      contact_sizes = v.contact_sizes;
    })

    -- Other contacts in place of the old ones.
    contacts-IsValid :
        (cs : List Contact)
        → Distinct Contact.public_key cs
        → All (λ c. validate_name p c.name ≡ true) cs
        → All (λ c. length c.public_key ≡ 32) cs
        → IsValid (record k { contacts = cs })
    contacts-IsValid cs keys names sizes = record {
      identity_names = v.identity_names;
      names_allowed = v.names_allowed;
      channel_names = v.channel_names;
      contact_keys = keys;
      contact_names = names;
      contact_sizes = sizes;
    }

    pub add_contact-IsValid : (name pub_key : List ℕ) → Kept (add_contact p name pub_key k)
    unfolding add_contact
    add_contact-IsValid name pub_key =
        if_elim Kept (validate_name p name) _ _
          (λ allowed.
            if_elim Kept (length pub_key == 32) _ _
              (λ size.
                if_elim Kept (found (get_contact k pub_key)) _ _ (λ e. v)
                  (λ free.
                    contacts-IsValid _
                      (Distinct-append Contact.public_key k.contacts _ v.contact_keys
                        (Lacks-found Contact.public_key pub_key k.contacts free))
                      (All-append _ k.contacts _ v.contact_names (allowed, tt))
                      (All-append _ k.contacts _ v.contact_sizes ((==_iff _ 32).0 size, tt))))
              (λ e. v))
          (λ e. v)

    pub remove_contact-IsValid : (pub_key : List ℕ) → IsValid ((remove_contact pub_key k).1)
    unfolding remove_contact
    remove_contact-IsValid pub_key =
        contacts-IsValid _ (Distinct-remove Contact.public_key pub_key k.contacts v.contact_keys)
          (All-remove Contact.public_key _ pub_key k.contacts v.contact_names)
          (All-remove Contact.public_key _ pub_key k.contacts v.contact_sizes)

    abbrev Renamed : Fault ⊎ Bool × Keystore → Type 0
    Renamed r = IsValid (elim r [ inl e ↦ k | inr s ↦ s.1 ])

    pub rename_contact-IsValid :
        (pub_key new_name : List ℕ) → Renamed (rename_contact p pub_key new_name k)
    unfolding rename_contact
    rename_contact-IsValid pub_key new_name =
        if_elim Renamed (validate_name p new_name) _ _
          (λ allowed.
            contacts-IsValid _
              (Distinct-update Contact.public_key _ pub_key k.contacts (λ c. refl) v.contact_keys)
              (All-update Contact.public_key _ _ pub_key k.contacts (λ c h. allowed)
                v.contact_names)
              (All-update Contact.public_key _ _ pub_key k.contacts (λ c h. h) v.contact_sizes))
          (λ e. v)
