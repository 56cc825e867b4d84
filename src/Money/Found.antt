-- ===== src/Money/Found.antt =====
-- src/game.cpp: the search of `removeMoney` finds all the money.
use ot_tibia_teste.Common.{
  ℕ, zero, suc, ◌+◌, ◌*◌, ◌^◌, ◌≤◌, ◌<◌, ◌≡◌, refl, List, [], ◌∷◌, ◌++◌, some, ◌==◌, arith, All, ap,
  subst, Bool-cases, List-cases, inl, inr,
}
use ot_tibia_teste.Money.{
  Stack, Item, stack, container, Items, nil, cons, MoneyMap, Search, get_worth, emplace_money,
  visit, scan, look_into, containers_in, containers_among,
}

module _ (unit_of : ℕ → ℕ) where
  -- What all the items are worth.
  unfoldable mutual
    pub money_in : Item → ℕ
    money_in (stack s) = get_worth unit_of s
    money_in (container inner) = money_among inner

    pub money_among : Items → ℕ
    money_among nil = 0
    money_among (cons i rest) = money_in i + money_among rest

  -- The worth of each stack fits a uint32_t.
  unfoldable mutual
    pub IsFairItem : Item → Type 0
    IsFairItem (stack s) = unit_of s.type_id * s.count < 2 ^ 32
    IsFairItem (container inner) = IsFair inner

    pub IsFair : Items → Type 0
    IsFair nil = Unit
    IsFair (cons i rest) = IsFairItem i × IsFair rest

  abbrev pub money_of : MoneyMap → ℕ
  money_of [] = 0
  money_of ((worth, s) ∷ rest) = worth + money_of rest

  abbrev waiting_money : List Items → ℕ
  waiting_money [] = 0
  waiting_money (c ∷ cs) = money_among c + waiting_money cs

  abbrev waiting_containers : List Items → ℕ
  waiting_containers [] = 0
  waiting_containers (c ∷ cs) = suc (containers_among unit_of c) + waiting_containers cs

  -- The entries are money, at its worth.
  abbrev pub IsEntry : ℕ × Stack → Type 0
  IsEntry e = (1 ≤ e.0) × (e.0 < 2 ^ 32) × (e.0 ≡ unit_of e.1.type_id * e.1.count)

  emplace_money_lem :
      (worth : ℕ) (s : Stack) (m : MoneyMap)
      → IsEntry (worth, s)
      → All IsEntry m
      → All IsEntry (emplace_money worth s m)
        × (money_of (emplace_money worth s m) ≡ worth + money_of m)
  unfolding emplace_money
  emplace_money_lem worth s [] e h = ((e, tt), omega arith)
  emplace_money_lem worth s ((w, t) ∷ rest) e h =
      ground (arith, emplace_money_lem worth s rest e h.1)

  -- The search so far: what was counted is in the map, and with what is left it is all there is.
  abbrev Counts : ℕ → ℕ → Search → Type 0
  Counts all left r =
      (r.money_count ≡ money_of r.money_map)
      × (r.money_count + waiting_money r.containers + left ≡ all)
      × All IsEntry r.money_map
      × All IsFair r.containers

  snoc-IsFair : (cs : List Items) (c : Items) → All IsFair cs → IsFair c → All IsFair (cs ++ c ∷ [])
  snoc-IsFair [] c h k = (k, tt)
  snoc-IsFair (d ∷ cs) c h k = (h.0, snoc-IsFair cs c h.1 k)

  waiting_snoc :
      (cs : List Items) (c : Items)
      → (waiting_money (cs ++ c ∷ []) ≡ waiting_money cs + money_among c)
        × (waiting_containers (cs ++ c ∷ [])
            ≡ suc (waiting_containers cs + containers_among unit_of c))
  waiting_snoc [] c = (omega arith, omega arith)
  waiting_snoc (d ∷ cs) c =
      (omega (arith, (waiting_snoc cs c).0), omega (arith, (waiting_snoc cs c).1))

  visit_lem :
      (all left : ℕ) (i : Item) (r : Search)
      → all < 2 ^ 64
      → IsFairItem i
      → Counts all (money_in i + left) r
      → Counts all left (visit unit_of i r)
        × (waiting_containers (visit unit_of i r).containers
            ≡ waiting_containers r.containers + containers_in unit_of i)
  unfolding visit money_in money_among containers_in containers_among IsFairItem IsFair
  visit_lem all left (stack s) r few fair (h, k, e, w) =
      elim (Bool-cases (get_worth unit_of s == 0)) [
        | inl no_money ↦
            let worthless : get_worth unit_of s ≡ 0 = ground arith in
            rw no_money ((h, omega (arith, k, worthless), e, w), omega arith)
        | inr money ↦
            let worthy : 1 ≤ get_worth unit_of s = ground arith in
            let (entries, sum) =
              emplace_money_lem (get_worth unit_of s) s r.money_map
                (worthy, omega (arith, fair), omega (arith, fair)) e in
            rw money ((omega (arith, h, k, sum), omega (arith, k), entries, w), omega arith)
      ]
  visit_lem all left (container inner) r few fair (h, k, e, w) =
      let (money, more) = waiting_snoc r.containers inner in
      ((h, omega (arith, k, money), e, snoc-IsFair r.containers inner w fair), omega (arith, more))

  scan_lem :
      (all left : ℕ) (is : Items) (r : Search)
      → all < 2 ^ 64
      → IsFair is
      → Counts all (money_among is + left) r
      → Counts all left (scan unit_of is r)
        × (waiting_containers (scan unit_of is r).containers
            ≡ waiting_containers r.containers + containers_among unit_of is)
  unfolding scan money_in money_among containers_in containers_among IsFairItem IsFair
  scan_lem all left nil r few fair (h, k, e, w) = ((h, omega (arith, k), e, w), omega arith)
  scan_lem all left (cons i rest) r few fair (h, k, e, w) =
      let (counts, more) =
        visit_lem all (money_among rest + left) i r few fair.0 (h, omega (arith, k), e, w) in
      let (counts', more') = scan_lem all left rest (visit unit_of i r) few fair.1 counts in
      (counts', omega (arith, more, more'))

  -- What the search ends with.
  abbrev pub HasFound : ℕ → Search → Type 0
  HasFound all r = (r.money_count ≡ all) × (money_of r.money_map ≡ all) × All IsEntry r.money_map

  look_into_lem :
      (fuel all : ℕ) (r : Search)
      → waiting_containers r.containers < fuel
      → all < 2 ^ 64
      → Counts all 0 r
      → (found : Search) × (look_into unit_of fuel r ≡ some found) × HasFound all found
  unfolding look_into
  look_into_lem zero all r less few h = absurd (omega arith)
  look_into_lem (suc fuel) all r less few (h, k, e, w) = elim (List-cases r.containers) [
    | inl empty ↦ (
      r,
      rw empty refl,
      (omega (arith, k, ap waiting_money empty), omega (arith, h, k, ap waiting_money empty), e),
    )
    | inr (c, rest, full) ↦
        let opened : Search = record r { containers = rest } in
        let (counts, more) =
          let (c_fair, rest_fair) = subst (λ l. All IsFair l) full w in
          scan_lem all 0 c opened few c_fair
            (h, omega (arith, k, ap waiting_money full), e, rest_fair) in
        rw full (
          look_into_lem fuel all (scan unit_of c opened)
            (omega (arith, less, more, ap waiting_containers full)) few counts)
  ]

  -- Whatever is nested in whatever way, the search ends and counts it all.
  pub search_lem :
      (things : Items)
      → money_among things < 2 ^ 64
      → IsFair things
      → (found : Search) × (look_into unit_of
            (suc (containers_among unit_of things))
            (scan unit_of things (record { containers = []; money_map = []; money_count = 0 }))
          ≡ some found)
        × HasFound (money_among things) found
  search_lem things few fair =
      let (counts, more) =
        scan_lem (money_among things) 0 things
          (record { containers = []; money_map = []; money_count = 0 }) few fair
          (refl, omega arith, tt, tt) in
      look_into_lem (suc (containers_among unit_of things)) (money_among things) _
        (omega (arith, more)) few counts
