-- ===== src/Party/Membership.antt =====
-- src/party.cpp: a party and its players agree on who belongs to it and who is invited.
use ot_tibia_teste.Common.{
  ℕ, ◌≡◌, refl, ◌∙◌, ◌≢◌, List, [], ◌∷◌, Option, none, some, Bool, true, false, ◌&&◌, ◌||◌, ◌==◌,
  if◌then◌else◌, arith, contains, IsDistinct,
}
use ot_tibia_teste.Party.{
  Party, Players, is_party, set_party, remove_all, add_party_invitation, remove_party_invitation,
  withdraw, release,
}

-- Who is in: the leader and the members.
abbrev pub is_in : Party → ℕ → Bool
is_in p x = p.leader == x || contains x p.members

pub record IsParty (s : Players) (a : ℕ) (p : Party) : Type 0 where
  pub membership : (x : ℕ) → is_party (s.party_of x) a ≡ is_in p x
  pub apart : contains p.leader p.members ≡ false
  pub distinct : IsDistinct p.members
  pub invited_once : IsDistinct p.invitees
  pub invitation : (x : ℕ) → contains a (s.invited x) ≡ contains x p.invitees

-- The rest of a party does not matter.
pub IsParty-same :
    (s : Players) (a : ℕ) (p q : Party)
    → p.leader ≡ q.leader
    → p.members ≡ q.members
    → p.invitees ≡ q.invitees
    → IsParty s a p
    → IsParty s a q
IsParty-same s a p q l m i h = record {
  membership = λ x. rw (← l, ← m) (h.membership x);
  apart = rw (← l, ← m) h.apart;
  distinct = rw (← m) h.distinct;
  invited_once = rw (← i) h.invited_once;
  invitation = λ x. rw (← i) (h.invitation x);
}

-- No player refers to the address.
pub record IsGone (s : Players) (a : ℕ) : Type 0 where
  pub nobody : (x : ℕ) → is_party (s.party_of x) a ≡ false
  pub uninvited : (x : ℕ) → contains a (s.invited x) ≡ false

abbrev pub Fits : Players → ℕ → Option Party → Type 0
Fits s a none = IsGone s a
Fits s a (some p) = IsParty s a p

-- What the players hold of any other party stays as it was.
pub record Frame (a : ℕ) (s s' : Players) : Type 0 where
  pub others : (b x : ℕ) → a ≢ b → is_party (s'.party_of x) b ≡ is_party (s.party_of x) b
  pub invites : (b x : ℕ) → a ≢ b → contains b (s'.invited x) ≡ contains b (s.invited x)

pub Frame-refl : (a : ℕ) (s : Players) → Frame a s s
Frame-refl a s = record { others = λ b x n. refl; invites = λ b x n. refl }

pub Frame-trans : (a : ℕ) (s t u : Players) → Frame a s t → Frame a t u → Frame a s u
Frame-trans a s t u f g = record {
  others = λ b x n. g.others b x n ∙ f.others b x n;
  invites = λ b x n. g.invites b x n ∙ f.invites b x n;
}

contains-remove_all :
    (a b : ℕ) (xs : List ℕ)
    → contains b (remove_all a xs) ≡ (if a == b then false else contains b xs)
unfolding remove_all
contains-remove_all a b [] = ground arith
contains-remove_all a b (x ∷ xs) = ground (arith, contains-remove_all a b xs)

pub remove-invited :
    (i a b x : ℕ) (s : Players)
    → contains b ((remove_party_invitation i a s).invited x)
      ≡ (if i == x && a == b then false else contains b (s.invited x))
unfolding remove_party_invitation
remove-invited i a b x s = ground (arith, contains-remove_all a b (s.invited i))

pub add-invited :
    (i a b x : ℕ) (s : Players)
    → contains b ((add_party_invitation i a s).invited x)
      ≡ (if i == x && a == b then true else contains b (s.invited x))
unfolding add_party_invitation
add-invited i a b x s = ground arith

withdraw-invited :
    (is : List ℕ) (a b x : ℕ) (s : Players)
    → contains b ((withdraw a is s).invited x)
      ≡ (if contains x is && a == b then false else contains b (s.invited x))
unfolding withdraw
withdraw-invited [] a b x s = refl
withdraw-invited (i ∷ is) a b x s =
    ground
      (arith, withdraw-invited is a b x (remove_party_invitation i a s), remove-invited i a b x s)

withdraw-party_of :
    (is : List ℕ) (a x : ℕ) (s : Players) → (withdraw a is s).party_of x ≡ s.party_of x
unfolding withdraw remove_party_invitation
withdraw-party_of [] a x s = refl
withdraw-party_of (i ∷ is) a x s = withdraw-party_of is a x (remove_party_invitation i a s)

release-party_of :
    (ms : List ℕ) (x : ℕ) (s : Players)
    → (release ms s).party_of x ≡ (if contains x ms then none else s.party_of x)
unfolding release set_party
release-party_of [] x s = refl
release-party_of (m ∷ ms) x s = ground (arith, release-party_of ms x (set_party m none s))

release-invited : (ms : List ℕ) (s : Players) → (release ms s).invited ≡ s.invited
unfolding release set_party
release-invited [] s = refl
release-invited (m ∷ ms) s = release-invited ms (set_party m none s)

-- What `disband` needs: nobody but the leader and the members is in, they are in no other party, and
-- nobody but the invitees is invited.
pub record IsOwned (s : Players) (a : ℕ) (p : Party) : Type 0 where
  pub inside : (x : ℕ) → is_party (s.party_of x) a ≡ true → is_in p x ≡ true
  pub leader_free : (b : ℕ) → a ≢ b → is_party (s.party_of p.leader) b ≡ false
  pub members_in : (x : ℕ) → contains x p.members ≡ true → s.party_of x ≡ some a
  pub invited_in : (x : ℕ) → contains a (s.invited x) ≡ true → contains x p.invitees ≡ true

-- The players after `disband`.
unfoldable pub dissolved : ℕ → Players → Party → Players
dissolved a s p = release p.members (withdraw a p.invitees (set_party p.leader none s))

dissolved-party_of :
    (a : ℕ) (s : Players) (p : Party) (x : ℕ)
    → (dissolved a s p).party_of x ≡ (if is_in p x then none else s.party_of x)
unfolding dissolved set_party
dissolved-party_of a s p x = ground (
  arith,
  release-party_of p.members x (withdraw a p.invitees (set_party p.leader none s)),
  withdraw-party_of p.invitees a x (set_party p.leader none s),
)

dissolved-invited :
    (a b : ℕ) (s : Players) (p : Party) (x : ℕ)
    → contains b ((dissolved a s p).invited x)
      ≡ (if contains x p.invitees && a == b then false else contains b (s.invited x))
unfolding dissolved set_party
dissolved-invited a b s p x =
    rw (release-invited p.members (withdraw a p.invitees (set_party p.leader none s)))
      (withdraw-invited p.invitees a b x (set_party p.leader none s))

pub dissolved-IsGone :
    (a : ℕ) (s : Players) (p : Party) → IsOwned s a p → IsGone (dissolved a s p) a
dissolved-IsGone a s p h = record {
  nobody = λ x. ground (arith, dissolved-party_of a s p x, h.inside x);
  uninvited = λ x. ground (arith, dissolved-invited a a s p x, h.invited_in x);
}

pub dissolved-Frame :
    (a : ℕ) (s : Players) (p : Party) → IsOwned s a p → Frame a s (dissolved a s p)
dissolved-Frame a s p h = record {
  others = λ b x n. ground (arith, dissolved-party_of a s p x, h.leader_free b n, h.members_in x);
  invites = λ b x n. ground (arith, dissolved-invited a b s p x);
}
