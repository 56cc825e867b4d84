-- ===== src/Chat/Requests.antt =====
-- src/chat.cpp and the channel handlers of src/game.cpp: whatever is asked for, the private channels
-- are in order.
use ot_tibia_teste.Common.{
  ℕ, zero, suc, ◌+◌, ◌≤◌, ◌<◌, ◌≡◌, refl, subst, List, [], Option, none, some, Bool, true, false,
  if◌then◌else◌, arith, Option-cases, inl, inr,
}
use ot_tibia_teste.Common.Maps.{lookup, insert, erase, lookup-insert}
use ot_tibia_teste.Chat.{
  Player, Users, PrivateChannel, Chat, Place, normal_at, private_at, party_at, guild_at, Env,
  has_key, is_invited, emplace, users_at, set_users, found_place, get_channel, add_user,
  remove_user, free_slot, create_channel, delete_channel, add_user_to_channel,
  remove_user_from_channel, invite_player, exclude_player, player_create_private_channel,
  channel_private,
}
use ot_tibia_teste.Chat.Membership.{
  IsPrivates, IsClosed, replace-IsPrivates, create-IsPrivates, erase-IsPrivates, leave-IsClosed,
  exclude-IsClosed, invite-IsClosed, enter-IsClosed,
}

-- The slot is one of those asked for, and free.
abbrev IsFree : ℕ → ℕ → List (ℕ × PrivateChannel) → Option ℕ → Type 0
IsFree low high m none = Unit
IsFree low high m (some k) = (low ≤ k) × (k < high) × (lookup k m ≡ none)

module _ (id_of : ℕ → ℕ) where
  abbrev pub InOrder : Chat → Type 0
  InOrder c = IsPrivates id_of c.privates

  -- The players' ids are those of their guids.
  abbrev pub IsKnown : Player → Type 0
  IsKnown p = p.id ≡ id_of p.guid

  -- A channel that is there is changed.
  found-InOrder :
      {V : Type 0} (c : Chat) (o : Option V) (f : V → Chat)
      → InOrder c
      → ((v : V) → o ≡ some v → InOrder (f v))
      → InOrder (elim o [ none ↦ c | some v ↦ f v ])
  found-InOrder c none f h k = h
  found-InOrder c (some v) f h k = k v refl

  set_users-InOrder :
      (place : Place) (us : Users) (c : Chat)
      → ((k : ℕ) (ch : PrivateChannel)
          → place ≡ private_at k
          → lookup k c.privates ≡ some ch
          → IsClosed id_of ch
          → IsClosed id_of (record ch { users = us }))
      → InOrder c
      → InOrder (set_users place us c)
  unfolding set_users
  set_users-InOrder (normal_at k) us c keep h = h
  set_users-InOrder (party_at k) us c keep h = h
  set_users-InOrder (guild_at k) us c keep h = h
  set_users-InOrder (private_at k) us c keep h = found-InOrder c (lookup k c.privates) _ h λ ch e.
      replace-IsPrivates id_of k ch (record ch { users = us }) c.privates e refl (keep k ch refl e)
        h

  pub invite-InOrder : (k : ℕ) (q : Player) (c : Chat) → InOrder c → InOrder (invite_player k q c)
  unfolding invite_player
  invite-InOrder k q c h = found-InOrder c (lookup k c.privates) _ h λ ch e.
      replace-IsPrivates id_of k ch (record ch { invites = emplace q.guid q.id ch.invites })
        c.privates e refl (invite-IsClosed id_of ch q.guid q.id) h

  if-InOrder : (b : Bool) (c d : Chat) → InOrder c → InOrder d → InOrder (if b then c else d)
  if-InOrder true c d h k = h
  if-InOrder false c d h k = k

  pub exclude-InOrder :
      (k : ℕ) (q : Player) (c : Chat) → IsKnown q → InOrder c → InOrder (exclude_player k q c)
  unfolding exclude_player
  exclude-InOrder k q c known h = found-InOrder c (lookup k c.privates) _ h λ ch e.
      if-InOrder (has_key q.guid ch.invites) _ c
        (rw known (
          replace-IsPrivates id_of k ch
            (record ch { users = erase (id_of q.guid) ch.users; invites = erase q.guid ch.invites })
            c.privates e refl (exclude-IsClosed id_of ch q.guid) h))
        h

  -- A private channel at the place, if there is one, has invited the guid.
  abbrev invited_at : ℕ → Chat → Place → Bool
  invited_at guid c (private_at k) = elim (lookup k c.privates) [
    | none ↦ true
    | some ch ↦ is_invited guid ch
  ]
  invited_at guid c (normal_at k) = true
  invited_at guid c (party_at k) = true
  invited_at guid c (guild_at k) = true

  abbrev IsOpen : ℕ → Chat → Option Place → Type 0
  IsOpen guid c none = Unit
  IsOpen guid c (some place) = invited_at guid c place ≡ true

  get_channel-IsOpen :
      (env : Env) (c : Chat) (p : Player) (channel_id : ℕ)
      → IsOpen p.guid c (get_channel env c p channel_id)
  unfolding get_channel found_place
  get_channel-IsOpen env c p channel_id = ground arith

  enter-InOrder :
      (k : ℕ) (ch : PrivateChannel) (p : Player) (c : Chat)
      → IsKnown p
      → lookup k c.privates ≡ some ch
      → is_invited p.guid ch ≡ true
      → InOrder c
      → InOrder (record c {
        privates = insert k (record ch { users = insert p.id p.guid ch.users }) c.privates;
      })
  enter-InOrder k ch p c known e invited h =
      replace-IsPrivates id_of k ch (record ch { users = insert p.id p.guid ch.users }) c.privates e
        refl (λ closed. rw known (enter-IsClosed id_of ch p.guid invited closed)) h

  add_user-InOrder :
      (env : Env) (place : Place) (p : Player) (c : Chat)
      → IsKnown p
      → invited_at p.guid c place ≡ true
      → InOrder c
      → InOrder (add_user env place p c).0
  unfolding add_user users_at set_users
  add_user-InOrder env (normal_at k) p c known invited h = ground arith
  add_user-InOrder env (party_at k) p c known invited h = ground arith
  add_user-InOrder env (guild_at k) p c known invited h = ground arith
  add_user-InOrder env (private_at k) p c known invited h =
      elim (Option-cases (lookup k c.privates)) [
        | inl e ↦ ground arith
        | inr (ch, e) ↦ ground (arith, enter-InOrder k ch p c known e)
      ]

  quit-InOrder :
      (k : ℕ) (ch : PrivateChannel) (p : Player) (c : Chat)
      → lookup k c.privates ≡ some ch
      → InOrder c
      → InOrder
          (record c { privates = insert k (record ch { users = erase p.id ch.users }) c.privates })
  quit-InOrder k ch p c e h =
      replace-IsPrivates id_of k ch (record ch { users = erase p.id ch.users }) c.privates e refl
        (leave-IsClosed id_of ch p.id) h

  remove_user-InOrder :
      (place : Place) (p : Player) (c : Chat) → InOrder c → InOrder (remove_user place p c).0
  unfolding remove_user users_at set_users
  remove_user-InOrder (normal_at k) p c h = ground arith
  remove_user-InOrder (party_at k) p c h = ground arith
  remove_user-InOrder (guild_at k) p c h = ground arith
  remove_user-InOrder (private_at k) p c h = elim (Option-cases (lookup k c.privates)) [
    | inl e ↦ ground arith
    | inr (ch, e) ↦ ground (arith, quit-InOrder k ch p c e)
  ]

  delete-InOrder :
      (c : Chat) (p : Player) (channel_id : ℕ)
      → InOrder c
      → InOrder (delete_channel c p channel_id).0
  unfolding delete_channel
  delete-InOrder c p channel_id h = ground (arith, erase-IsPrivates id_of channel_id c.privates)

  free_slot-IsFree :
      (n i : ℕ) (m : List (ℕ × PrivateChannel)) → IsFree i (i + n) m (free_slot n i m)
  unfolding free_slot
  free_slot-IsFree zero i m = tt
  free_slot-IsFree (suc n) i m = ground (arith, free_slot-IsFree n (suc i) m)

  create-InOrder :
      (env : Env) (c : Chat) (p : Player) (channel_id : ℕ)
      → InOrder c
      → InOrder (create_channel env c p channel_id).0
        × IsOpen p.guid (create_channel env c p channel_id).0 (create_channel env c p channel_id).1
  unfolding create_channel
  create-InOrder env c p channel_id h = elim (Option-cases (free_slot 9900 100 c.privates)) [
    | inl e ↦ ground arith
    | inr (k, e) ↦
        let (low, high, free) : IsFree 100 10000 c.privates (some k) =
          subst (IsFree 100 10000 c.privates) e (free_slot-IsFree 9900 100 c.privates) in
        ground (
          arith,
          create-IsPrivates id_of k p.guid c.privates,
          lookup-insert k k (record { users = []; invites = []; owner = p.guid }) c.privates,
        )
  ]

  pub open-InOrder :
      (env : Env) (c : Chat) (p : Player) (channel_id : ℕ)
      → IsKnown p
      → InOrder c
      → InOrder (add_user_to_channel env c p channel_id).0
  unfolding add_user_to_channel
  open-InOrder env c p channel_id known h = elim (Option-cases (get_channel env c p channel_id)) [
    | inl e ↦ ground arith
    | inr (place, e) ↦
        let invited : IsOpen p.guid c (some place) =
          subst (IsOpen p.guid c) e (get_channel-IsOpen env c p channel_id) in
        let kept = add_user-InOrder env place p c known invited h in ground arith
  ]

  pub close-InOrder :
      (env : Env) (c : Chat) (p : Player) (channel_id : ℕ)
      → InOrder c
      → InOrder (remove_user_from_channel env c p channel_id).0
  unfolding remove_user_from_channel
  close-InOrder env c p channel_id h = elim (Option-cases (get_channel env c p channel_id)) [
    | inl e ↦ ground arith
    | inr (place, e) ↦
        let kept = remove_user-InOrder place p c h in
        let deleted = delete-InOrder (remove_user place p c).0 p channel_id kept in ground arith
  ]

  pub make-InOrder :
      (env : Env) (c : Chat) (p : Player)
      → IsKnown p
      → InOrder c
      → InOrder (player_create_private_channel env c p)
  unfolding player_create_private_channel
  make-InOrder env c p known h =
      let (made, invited) = create-InOrder env c p channel_private h in
      elim (Option-cases (create_channel env c p channel_private).1) [
        | inl e ↦ ground arith
        | inr (place, e) ↦
            let invited' : IsOpen p.guid (create_channel env c p channel_private).0 (some place) =
              subst (IsOpen p.guid (create_channel env c p channel_private).0) e invited in
            let kept =
              add_user-InOrder env place p (create_channel env c p channel_private).0 known invited'
                made in
            ground arith
      ]
