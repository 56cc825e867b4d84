-- ===== src/Network/Admission/Laws.antt =====
-- src/ban.cpp: who is let in by `Ban::acceptConnection`.
use ot_tibia_teste.Common.{
  ℕ, zero, suc, ◌+◌, ◌≤◌, ◌<◌, ◌≡◌, refl, sym, ap, ◌∙◌, inl, inr, ◌++◌, length, replicate, ◌≢◌,
  List, [], ◌∷◌, Option, none, some, Bool, true, false, arith, Option-cases, ◌==◌, if◌then◌else◌,
  All,
}
use ot_tibia_teste.Common.Maps.{lookup, lookup-insert}
use ot_tibia_teste.Network.Admission.{ConnectBlock, Bans, attempt, accept_connection, attempts}

-- What the entry of an address becomes.
abbrev after : Option ConnectBlock → ℕ → ConnectBlock × Bool
after none now = (record { last_attempt = now; block_time = 0; count = 1 }, true)
after (some b) now = attempt b now

-- The call reads and writes the entry of its own address alone.
accept_connection-answer :
    (bans : Bans) (now ip : ℕ) → (accept_connection bans now ip).1 ≡ (after (lookup ip bans) now).1
unfolding accept_connection
accept_connection-answer bans now ip = elim (Option-cases (lookup ip bans)) [
  | inl e ↦ rw (e, accept_connection) refl
  | inr (b, e) ↦ rw (e, accept_connection) refl
]

lookup-accept_connection :
    (bans : Bans) (now ip other : ℕ)
    → lookup other (accept_connection bans now ip).0
      ≡ (if ip == other then some (after (lookup ip bans) now).0 else lookup other bans)
unfolding accept_connection
lookup-accept_connection bans now ip other = elim (Option-cases (lookup ip bans)) [
  | inl e ↦ rw (e, accept_connection) (lookup-insert ip other _ bans)
  | inr (b, e) ↦ rw (e, accept_connection) (lookup-insert ip other _ bans)
]

lookup-accept_self :
    (bans : Bans) (now ip : ℕ)
    → lookup ip (accept_connection bans now ip).0 ≡ some (after (lookup ip bans) now).0
lookup-accept_self bans now ip = ground (arith, lookup-accept_connection bans now ip ip)

abbrev pub IsCounted : Bans → Type 0
IsCounted bans = (ip : ℕ) (b : ConnectBlock) → lookup ip bans ≡ some b → b.count ≤ 5

attempt-count : (b : ConnectBlock) (now : ℕ) → b.count ≤ 5 → (attempt b now).0.count ≤ 5
unfolding attempt
attempt-count b now h = ground arith

after-count :
    (o : Option ConnectBlock) (now : ℕ)
    → ((b : ConnectBlock) → o ≡ some b → b.count ≤ 5)
    → (after o now).0.count ≤ 5
after-count none now h = omega arith
after-count (some b) now h = attempt-count b now (h b refl)

-- A call keeps every count at most 5, and leaves the entries of all other addresses alone.
pub accept_connection-IsCounted :
    (bans : Bans) (now ip : ℕ)
    → IsCounted bans
    → IsCounted (accept_connection bans now ip).0
      × ((other : ℕ)
          → ip ≢ other
          → lookup other (accept_connection bans now ip).0 ≡ lookup other bans)
accept_connection-IsCounted bans now ip h = (
  λ other b e. ground (
    arith,
    lookup-accept_connection bans now ip other,
    after-count (lookup ip bans) now (h ip),
    h other b,
  ),
  λ other n. ground (arith, lookup-accept_connection bans now ip other),
)

attempt-refused :
    (b : ConnectBlock) (now : ℕ) → (attempt b now).1 ≡ false → now < (attempt b now).0.block_time
unfolding attempt
attempt-refused b now h = ground arith

after-refused :
    (o : Option ConnectBlock) (now : ℕ) → (after o now).1 ≡ false → now < (after o now).0.block_time
after-refused none now h = absurd (ground arith)
after-refused (some b) now h = attempt-refused b now h

attempt-blocked :
    (b : ConnectBlock) (now : ℕ)
    → now < b.block_time
    → attempt b now ≡ (record b { block_time = b.block_time + 250 }, false)
unfolding attempt
attempt-blocked b now h = ground arith

-- An address that is refused is blocked until a time that lies ahead, and an attempt before that
-- time is refused again and moves it on by 250 milliseconds.
pub accept_connection-refused :
    (bans : Bans) (now ip : ℕ)
    → (accept_connection bans now ip).1 ≡ false
    → (b : ConnectBlock) × (lookup ip (accept_connection bans now ip).0 ≡ some b)
      × (now < b.block_time)
      × ((later : ℕ)
          → later < b.block_time
          → ((accept_connection (accept_connection bans now ip).0 later ip).1 ≡ false)
            × (lookup ip (accept_connection (accept_connection bans now ip).0 later ip).0
                ≡ some (record b { block_time = b.block_time + 250 })))
accept_connection-refused bans now ip h =
    let b : ConnectBlock = (after (lookup ip bans) now).0 in
    let known = lookup-accept_self bans now ip in
    let bans' = (accept_connection bans now ip).0 in
    (
      b,
      known,
      after-refused (lookup ip bans) now (sym (accept_connection-answer bans now ip) ∙ h),
      λ later hl. (
        accept_connection-answer bans' later ip
            ∙ rw known (ap (λ r. r.1) (attempt-blocked b later hl)),
        lookup-accept_self bans' later ip
            ∙ rw known (ap (λ r. some r.0) (attempt-blocked b later hl)),
      ),
    )

-- An unblocked address with `n` attempts counted, the last at `last`.
abbrev Counted : Bans → ℕ → ℕ → ℕ → Type 0
Counted bans ip last n =
    (b : ConnectBlock) × (lookup ip bans ≡ some b)
    × (b.block_time ≡ 0)
    × (b.last_attempt ≡ last)
    × (b.count ≡ n)

attempt-quick :
    (b : ConnectBlock) (now n : ℕ)
    → b.block_time ≡ 0
    → b.count ≡ n
    → n < 5
    → b.last_attempt ≤ now
    → now ≤ b.last_attempt + 500
    → attempt b now ≡ (record { last_attempt = now; block_time = 0; count = suc n }, true)
unfolding attempt
attempt-quick b now n e c h lo hi = ground arith

attempt-sixth :
    (b : ConnectBlock) (now : ℕ)
    → b.block_time ≡ 0
    → b.count ≡ 5
    → b.last_attempt ≤ now
    → now ≤ b.last_attempt + 500
    → attempt b now ≡ (record { last_attempt = now; block_time = now + 3000; count = 0 }, false)
unfolding attempt
attempt-sixth b now e c lo hi = ground arith

abbrev pub Quick : ℕ → List ℕ → Type 0
Quick last [] = Unit
Quick last (t ∷ ts) = (last ≤ t) × (t ≤ last + 500) × Quick t ts

Counted-step :
    (bans : Bans) (ip last now n : ℕ)
    → Counted bans ip last n
    → n < 5
    → last ≤ now
    → now ≤ last + 500
    → ((accept_connection bans now ip).1 ≡ true)
      × Counted (accept_connection bans now ip).0 ip now (suc n)
Counted-step bans ip last now n (b, e, z, l, c) h lo hi =
    let q = attempt-quick b now n z c h (omega arith) (omega arith) in
    (
      accept_connection-answer bans now ip ∙ rw e (ap (λ r. r.1) q),
      (
        record { last_attempt = now; block_time = 0; count = suc n },
        lookup-accept_self bans now ip ∙ rw e (ap (λ r. some r.0) q),
        refl,
        refl,
        refl,
      ),
    )

-- With `5 - n` quick attempts more the limit is reached, and the next one is refused.
Quick-attempts :
    (m n : ℕ) (bans : Bans) (ip last : ℕ) (ts : List ℕ)
    → m + n ≡ 5
    → length ts ≡ suc m
    → Counted bans ip last n
    → Quick last ts
    → attempts bans ip ts ≡ replicate m true ++ false ∷ []
unfolding attempts
Quick-attempts zero n bans ip last [] e l c q = absurd (omega arith)
Quick-attempts zero n bans ip last (t ∷ x ∷ ts) e l c q = absurd (omega arith)
Quick-attempts zero n bans ip last (t ∷ []) e l (b, k, z, a, c) q =
    ap (λ r. r ∷ [])
      (accept_connection-answer bans t ip
        ∙ rw k (ap (λ r. r.1) (attempt-sixth b t z (omega arith) (omega arith) (omega arith))))
Quick-attempts (suc m) n bans ip last [] e l c q = absurd (omega arith)
Quick-attempts (suc m) n bans ip last (t ∷ ts) e l c (lo, hi, q) =
    let step = Counted-step bans ip last t n c (omega arith) lo hi in
    rw step.0 (
      ap (λ r. true ∷ r)
        (Quick-attempts m (suc n) (accept_connection bans t ip).0 ip t ts (omega arith)
          (omega arith) step.1 q))

-- Of six attempts of an address that was not known, each at most 500 milliseconds after the one
-- before it, the first five are accepted and the sixth is refused.
pub attempts-Quick :
    (bans : Bans) (ip t : ℕ) (ts : List ℕ)
    → lookup ip bans ≡ none
    → length ts ≡ 5
    → Quick t ts
    → attempts bans ip (t ∷ ts) ≡ true ∷ true ∷ true ∷ true ∷ true ∷ false ∷ []
unfolding attempts
attempts-Quick bans ip t ts e l q =
    let known : Counted (accept_connection bans t ip).0 ip t 1 =
      (_, lookup-accept_self bans t ip ∙ rw e refl, refl, refl, refl) in
    rw (accept_connection-answer bans t ip, e)
      (ap (λ r. true ∷ r) (Quick-attempts 4 1 _ ip t ts refl (omega arith) known q))

-- An unblocked address whose last attempt was at `last`.
abbrev Seen : Bans → ℕ → ℕ → Type 0
Seen bans ip last =
    (b : ConnectBlock) × (lookup ip bans ≡ some b) × (b.block_time ≤ last) × (b.last_attempt ≡ last)

abbrev pub Patient : ℕ → List ℕ → Type 0
Patient last [] = Unit
Patient last (t ∷ ts) = (last + 5000 < t) × Patient t ts

attempt-patient :
    (b : ConnectBlock) (now : ℕ)
    → b.block_time ≤ b.last_attempt
    → b.last_attempt + 5000 < now
    → attempt b now ≡ (record b { last_attempt = now; count = 1 }, true)
unfolding attempt
attempt-patient b now z h = ground arith

Patient-attempts :
    (bans : Bans) (ip last : ℕ) (ts : List ℕ)
    → Seen bans ip last
    → Patient last ts
    → All (λ r. r ≡ true) (attempts bans ip ts)
unfolding attempts
Patient-attempts bans ip last [] s p = tt
Patient-attempts bans ip last (t ∷ ts) (b, k, z, l) (h, p) =
    let q = attempt-patient b t (omega arith) (omega arith) in
    (
      accept_connection-answer bans t ip ∙ rw k (ap (λ r. r.1) q),
      Patient-attempts (accept_connection bans t ip).0 ip t ts
          (
            record b { last_attempt = t; count = 1 },
            lookup-accept_self bans t ip ∙ rw k (ap (λ r. some r.0) q),
            omega arith,
            refl,
          )
          p,
    )

-- An address that was not known and lets more than five seconds pass between any two attempts is
-- never refused, however often it comes.
pub attempts-Patient :
    (bans : Bans) (ip t : ℕ) (ts : List ℕ)
    → lookup ip bans ≡ none
    → Patient t ts
    → All (λ r. r ≡ true) (attempts bans ip (t ∷ ts))
unfolding attempts
attempts-Patient bans ip t ts e p = (
  accept_connection-answer bans t ip ∙ rw e refl,
  Patient-attempts (accept_connection bans t ip).0 ip t ts
      (
        record { last_attempt = t; block_time = 0; count = 1 },
        lookup-accept_self bans t ip ∙ rw e refl,
        omega arith,
        refl,
      )
      p,
)
