-- ===== src/Chat/Membership.antt =====
-- src/chat.cpp: who uses a private channel is invited to it or owns it, and nobody owns two.
use ot_tibia_teste.Common.{
  ℕ, ◌≤◌, ◌<◌, ◌≡◌, refl, List, [], ◌∷◌, none, some, true, false, ◌==◌, arith, All, IsDistinct,
  snoc-IsDistinct, ==_iff, ap, Bool-cases, inl, inr,
}
use ot_tibia_teste.Common.Maps.{lookup, insert, erase, lookup-erase, lookup-insert}
use ot_tibia_teste.Chat.{PrivateChannel, is_invited, emplace, private_of, leave_privates}
use ot_tibia_teste.Chat.Owners.{
  erase-All, insert-All, map-All, lookup-All, owners, owners-insert_same, owners-insert_new,
  private_of-none, owners-erase-IsDistinct, owners-leave-IsDistinct,
}

module _ (id_of : ℕ → ℕ) where
  -- A user is invited or the owner, under the id of its guid.
  abbrev pub IsMember : PrivateChannel → ℕ × ℕ → Type 0
  IsMember ch u = (is_invited u.1 ch ≡ true) × (id_of u.1 ≡ u.0)

  abbrev pub IsClosed : PrivateChannel → Type 0
  IsClosed ch = All (IsMember ch) ch.users

  pub leave-IsClosed :
      (ch : PrivateChannel) (id : ℕ)
      → IsClosed ch
      → IsClosed (record ch { users = erase id ch.users })
  leave-IsClosed ch id h =
      erase-All (IsMember ch) (IsMember (record ch { users = erase id ch.users })) id ch.users
        (λ u n m. m) h

  not_same :
      (guid : ℕ) (u : ℕ × ℕ) → (u.0 == id_of guid) ≡ false → id_of u.1 ≡ u.0 → (guid == u.1) ≡ false
  not_same guid u n m = elim (Bool-cases (guid == u.1)) [
    | inl e ↦ absurd (ground (arith, ap id_of ((==_iff guid u.1).0 e)))
    | inr e ↦ e
  ]

  still_invited :
      (ch : PrivateChannel) (guid : ℕ) (u : ℕ × ℕ)
      → (u.0 == id_of guid) ≡ false
      → IsMember ch u
      → IsMember
          (record ch { users = erase (id_of guid) ch.users; invites = erase guid ch.invites })
          u
  still_invited ch guid u n m =
      ground (arith, lookup-erase guid u.1 ch.invites, not_same guid u n m.1)

  -- Who is excluded is no longer a user, and the others are still invited.
  pub exclude-IsClosed :
      (ch : PrivateChannel) (guid : ℕ)
      → IsClosed ch
      → IsClosed
          (record ch { users = erase (id_of guid) ch.users; invites = erase guid ch.invites })
  exclude-IsClosed ch guid h =
      erase-All (IsMember ch)
        (IsMember
          (record ch { users = erase (id_of guid) ch.users; invites = erase guid ch.invites }))
        (id_of guid) ch.users (still_invited ch guid) h

  still-IsMember :
      (ch : PrivateChannel) (guid id : ℕ) (u : ℕ × ℕ)
      → IsMember ch u
      → IsMember (record ch { invites = emplace guid id ch.invites }) u
  still-IsMember ch guid id u m = ground (arith, lookup-insert guid u.1 id ch.invites)

  pub invite-IsClosed :
      (ch : PrivateChannel) (guid id : ℕ)
      → IsClosed ch
      → IsClosed (record ch { invites = emplace guid id ch.invites })
  invite-IsClosed ch guid id h =
      map-All (IsMember ch) (IsMember (record ch { invites = emplace guid id ch.invites })) ch.users
        (still-IsMember ch guid id) h

  pub enter-IsClosed :
      (ch : PrivateChannel) (guid : ℕ)
      → is_invited guid ch ≡ true
      → IsClosed ch
      → IsClosed (record ch { users = insert (id_of guid) guid ch.users })
  enter-IsClosed ch guid invited h =
      insert-All (IsMember ch) (id_of guid) guid ch.users (invited, refl) h

  -- A channel in a slot for private ones.
  abbrev pub IsSlot : ℕ × PrivateChannel → Type 0
  IsSlot e = (100 ≤ e.0) × (e.0 < 10000) × IsClosed e.1

  abbrev pub IsPrivates : List (ℕ × PrivateChannel) → Type 0
  IsPrivates m = All IsSlot m × IsDistinct (owners m)

  pub replace-IsPrivates :
      (k : ℕ) (ch ch' : PrivateChannel) (m : List (ℕ × PrivateChannel))
      → lookup k m ≡ some ch
      → ch'.owner ≡ ch.owner
      → (IsClosed ch → IsClosed ch')
      → IsPrivates m
      → IsPrivates (insert k ch' m)
  replace-IsPrivates k ch ch' m found same keep h =
      let (low, high, closed) = lookup-All IsSlot k ch m found h.0 in
      (
        insert-All IsSlot k ch' m (low, high, keep closed) h.0,
        rw (owners-insert_same k ch ch' m found same) h.1,
      )

  pub create-IsPrivates :
      (k : ℕ) (guid : ℕ) (m : List (ℕ × PrivateChannel))
      → lookup k m ≡ none
      → private_of guid m ≡ none
      → 100 ≤ k
      → k < 10000
      → IsPrivates m
      → IsPrivates (insert k (record { users = []; invites = []; owner = guid }) m)
  create-IsPrivates k guid m free single low high h = (
    insert-All IsSlot k (record { users = []; invites = []; owner = guid }) m (low, high, tt) h.0,
    rw (owners-insert_new k (record { users = []; invites = []; owner = guid }) m free)
        (snoc-IsDistinct (owners m) guid h.1 (private_of-none guid m single)),
  )

  pub erase-IsPrivates :
      (k : ℕ) (m : List (ℕ × PrivateChannel)) → IsPrivates m → IsPrivates (erase k m)
  erase-IsPrivates k m h =
      (erase-All IsSlot IsSlot k m (λ u n p. p) h.0, owners-erase-IsDistinct k m h.1)

  leave_privates-All :
      (guid : ℕ) (m : List (ℕ × PrivateChannel))
      → All IsSlot m
      → All IsSlot (leave_privates (id_of guid) guid m)
  unfolding leave_privates
  leave_privates-All guid [] h = tt
  leave_privates-All guid ((k, ch) ∷ rest) h =
      ground (arith, exclude-IsClosed ch guid, leave_privates-All guid rest h.1)

  pub leave_privates-IsPrivates :
      (guid : ℕ) (m : List (ℕ × PrivateChannel))
      → IsPrivates m
      → IsPrivates (leave_privates (id_of guid) guid m)
  leave_privates-IsPrivates guid m h =
      (leave_privates-All guid m h.0, owners-leave-IsDistinct (id_of guid) guid m h.1)
