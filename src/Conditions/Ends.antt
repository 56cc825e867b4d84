-- ===== src/Conditions/Ends.antt =====
-- src/condition.cpp: `unserialize` ends on every stream.
use ot_tibia_teste.Common.{
  ℕ, zero, suc, subst, not, [], ◌∷◌, ◌<◌, ◌≤◌, ◌≢◌, List, Bool, true, false, ◌==◌, if◌then◌else◌,
  Option, none, some, length, arith, ltb, length-drop, Option-cases, Bool-cases, inl, inr,
}
use ot_tibia_teste.Streams.{read, skip}
use ot_tibia_teste.Streams.Laws.{length-read}
use ot_tibia_teste.Conditions.{
  create_condition, Condition, Extra, generic, invisible, spell_cooldown, spell_group_cooldown,
  attributes, regeneration, soul, damage, speed, outfit, light, drunk,
}
use ot_tibia_teste.Common.Words.{u8}
use ot_tibia_teste.Conditions.Saving.{
  expect, create_from, load_from, load_conditions, overran, unfinished, ◌>>=◌,
}
use ot_tibia_teste.Conditions.Storage.{
  Outcome, done, refused, overrun, stuck, stored, stored_at, set_elem, unserialize_base,
  unserialize_attributes, unserialize_regeneration, unserialize_soul, unserialize_damage,
  unserialize_speed, unserialize_outfit, unserialize_light, dispatch, unserialize_from, unserialize,
}

-- An answer, with at most `n` bytes left of the stream.
data Within (n : ℕ) : Outcome → Type 0 where
  is_done : {c : Condition} {s : List ℕ} → length s ≤ n → Within n (done c s)
  is_refused : {s : List ℕ} → length s ≤ n → Within n (refused s)
  is_overrun : Within n overrun

if-Within :
    {n : ℕ} (b : Bool) {x y : Outcome} → Within n x → Within n y → Within n (if b then x else y)
if-Within true h k = h
if-Within false h k = k

stored-Within : (k : ℕ) (s : List ℕ) (make : ℕ → Condition) → Within (length s) (stored k s make)
unfolding stored
stored-Within k s make = elim (Option-cases (read k s)) [
  | inl e ↦ rw (e, stored) (is_refused (omega arith))
  | inr ((v, rest), e) ↦ rw (e, stored) (is_done (omega (arith, length-read k s e)))
]

set-Within :
    (o : Option (List ℕ)) (make : List ℕ → Condition) (n : ℕ) (rest : List ℕ)
    → length rest ≤ n
    → Within n (elim o [ none ↦ overrun | some ys ↦ done (make ys) rest ])
set-Within none make n rest h = is_overrun
set-Within (some ys) make n rest h = is_done h

stored_at-Within :
    (s xs : List ℕ) (i : ℕ) (make : List ℕ → Condition) → Within (length s) (stored_at s xs i make)
unfolding stored_at
stored_at-Within s xs i make = elim (Option-cases (read 4 s)) [
  | inl e ↦ rw (e, stored_at) (is_refused (omega arith))
  | inr ((v, rest), e) ↦
      rw (e, stored_at)
        (set-Within (set_elem xs i v) make (length s) rest (omega (arith, length-read 4 s e)))
]

skip-Within :
    (c : Condition) (s : List ℕ)
    → Within (length s) (elim (skip 4 s) [ none ↦ refused s | some rest ↦ done c rest ])
unfolding skip
skip-Within c s = elim (Bool-cases (ltb (length s) 4)) [
  | inl short ↦ rw short (is_refused (omega arith))
  | inr long ↦ rw long (is_done (omega (arith, length-drop 4 s)))
]

here : (c : Condition) (s : List ℕ) → Within (length s) (done c s)
here c s = is_done (omega arith)

refused_here : (s : List ℕ) → Within (length s) (refused s)
refused_here s = is_refused (omega arith)

ruleset bounded = (if-Within, stored-Within, stored_at-Within, here, refused_here)

base-Within :
    (attr : ℕ) (c : Condition) (s : List ℕ) → Within (length s) (unserialize_base attr c s)
unfolding unserialize_base
base-Within attr c s = search bounded depth 10

dispatch-Within :
    (now attr : ℕ) (c : Condition) (x : Extra) (s : List ℕ)
    → Within (length s) (dispatch now attr c x s)
unfolding unserialize_attributes unserialize_regeneration unserialize_soul unserialize_damage
    unserialize_speed unserialize_outfit unserialize_light
dispatch-Within now attr c (attributes a) s = search (bounded, base-Within) depth 10
dispatch-Within now attr c (regeneration r) s = search (bounded, base-Within) depth 10
dispatch-Within now attr c (soul m) s = search (bounded, base-Within) depth 10
dispatch-Within now attr c (damage d) s = search (bounded, base-Within, skip-Within) depth 10
dispatch-Within now attr c (speed p) s = search (bounded, base-Within) depth 10
dispatch-Within now attr c (outfit o) s = search (bounded, base-Within) depth 10
dispatch-Within now attr c (light l) s = search (bounded, base-Within) depth 10
dispatch-Within now attr c generic s = base-Within attr c s
dispatch-Within now attr c invisible s = base-Within attr c s
dispatch-Within now attr c spell_cooldown s = base-Within attr c s
dispatch-Within now attr c spell_group_cooldown s = base-Within attr c s
dispatch-Within now attr c (drunk n) s = base-Within attr c s

-- What a turn makes of an answer to an attribute.
Within-answer :
    {n m : ℕ} {o : Outcome} (f now : ℕ)
    → Within n o
    → n ≤ m
    → ((c : Condition) (s : List ℕ) → length s ≤ n → Within m (unserialize_from f now c s))
    → Within m (elim o [
      | done c' s' ↦ unserialize_from f now c' s'
      | refused s' ↦ refused s'
      | overrun ↦ overrun
      | stuck ↦ stuck
    ])
Within-answer f now (is_done h) less go = go _ _ h
Within-answer f now (is_refused h) less go = is_refused (omega arith)
Within-answer f now is_overrun less go = is_overrun

Within-mono : {n m : ℕ} {o : Outcome} → Within n o → n ≤ m → Within m o
Within-mono (is_done h) less = is_done (omega arith)
Within-mono (is_refused h) less = is_refused (omega arith)
Within-mono is_overrun less = is_overrun

unserialize_from-Within :
    (f now : ℕ) (c : Condition) (s : List ℕ)
    → length s < f
    → Within (length s) (unserialize_from f now c s)
unfolding unserialize_from
unserialize_from-Within zero now c s h = absurd (omega arith)
unserialize_from-Within (suc f) now c s h = elim (Option-cases (read 1 s)) [
  | inl e ↦ rw (e, unserialize_from) (is_done (omega arith))
  | inr ((attr, rest), e) ↦
      let shorter = length-read 1 s e in
      elim (Bool-cases (attr == 254)) [
        | inl last ↦ rw (e, unserialize_from, last) (is_done (omega arith))
        | inr more ↦
            rw (e, unserialize_from, more)
              (Within-answer f now (dispatch-Within now attr c c.extra rest) (omega arith)
                λ c' s' small.
                  Within-mono (unserialize_from-Within f now c' s' (omega arith)) (omega arith))
      ]
]

unserialize-Within :
    (now : ℕ) (c : Condition) (s : List ℕ) → Within (length s) (unserialize now c s)
unfolding unserialize
unserialize-Within now c s = unserialize_from-Within (suc (length s)) now c s (omega arith)

-- A part that was read, with fewer than `n` bytes left.
abbrev Shrunk : {A : Type 0} → ℕ → Option (A × List ℕ) → Type 0
Shrunk n none = Unit
Shrunk n (some (x, rest)) = length rest < n

>>=-Shrunk :
    {A B : Type 0} (n : ℕ) (o : Option (A × List ℕ)) (k : A × List ℕ → Option (B × List ℕ))
    → Shrunk n o
    → ((x : A) (rest : List ℕ) → length rest < n → Shrunk n (k (x, rest)))
    → Shrunk n (o >>= k)
>>=-Shrunk n none k h go = tt
>>=-Shrunk n (some (x, rest)) k h go = go x rest h

expect-Shrunk : (n attr k : ℕ) (s : List ℕ) → length s ≤ n → Shrunk n (expect attr k s)
unfolding expect
expect-Shrunk n attr k s h = elim (Option-cases (read 1 s)) [
  | inl e ↦ rw (e, expect) tt
  | inr ((found, rest), e) ↦
      let shorter = length-read 1 s e in
      elim (Bool-cases (found == attr)) [
        | inl same ↦ elim (Option-cases (read k rest)) [
          | inl none_left ↦ rw (e, expect, same, if◌then◌else◌, none_left) tt
          | inr ((v, left), read_it) ↦
              rw (e, expect, same, if◌then◌else◌, read_it)
                (omega (arith, length-read k rest read_it))
        ]
        | inr differs ↦ rw (e, expect, differs) tt
      ]
]

made-Shrunk :
    (n : ℕ) (o : Option Condition) (rest : List ℕ)
    → length rest < n
    → Shrunk n (o >>= λ c. some (c, rest))
made-Shrunk n none rest h = tt
made-Shrunk n (some c) rest h = h

create_from-Shrunk : (s : List ℕ) → Shrunk (length s) (create_from s)
unfolding create_from
create_from-Shrunk s =
    >>=-Shrunk (length s) (expect 1 4 s) _ (expect-Shrunk (length s) 1 4 s (omega arith))
      λ type s1 h1.
        >>=-Shrunk (length s) (expect 2 4 s1) _ (expect-Shrunk (length s) 2 4 s1 (omega arith))
          λ id s2 h2.
            >>=-Shrunk (length s) (expect 3 4 s2) _ (expect-Shrunk (length s) 3 4 s2 (omega arith))
              λ ticks s3 h3.
                >>=-Shrunk (length s) (expect 26 1 s3) _
                  (expect-Shrunk (length s) 26 1 s3 (omega arith))
                  λ buff s4 h4.
                    >>=-Shrunk (length s) (expect 27 4 s4) _
                      (expect-Shrunk (length s) 27 4 s4 (omega arith))
                      λ sub s5 h5.
                        >>=-Shrunk (length s) (expect 28 1 s5) _
                          (expect-Shrunk (length s) 28 1 s5 (omega arith))
                          λ aggressive s6 h6.
                            made-Shrunk (length s)
                              (create_condition (u8 id) type ticks 0 (not (buff == 0)) sub
                                (not (aggressive == 0)))
                              s6 h6

-- What a turn of the loop over the stream makes of a condition.
load-answer :
    {n : ℕ} {o : Outcome} (f now : ℕ) (stored : List Condition)
    → Within n o
    → ((s : List ℕ) (kept_now : List Condition)
        → length s ≤ n
        → load_from f now s kept_now ≢ unfinished)
    → (elim o [
      | done c' s' ↦ load_from f now s' (c' ∷ stored)
      | refused s' ↦ load_from f now s' stored
      | overrun ↦ overran
      | stuck ↦ unfinished
    ])
      ≢ unfinished
load-answer f now stored (is_done h) go = go _ _ h
load-answer f now stored (is_refused h) go = go _ _ h
load-answer f now stored is_overrun go = λ e. ground arith

load_from-ends :
    (f now : ℕ) (s : List ℕ) (stored : List Condition)
    → length s < f
    → load_from f now s stored ≢ unfinished
unfolding load_from
load_from-ends zero now s stored h = absurd (omega arith)
load_from-ends (suc f) now s stored h = elim (Option-cases (create_from s)) [
  | inl e ↦ rw (e, load_from) λ k. ground arith
  | inr ((c, rest), e) ↦
      let shorter : length rest < length s = subst (Shrunk (length s)) e (create_from-Shrunk s) in
      rw (e, load_from)
        (load-answer f now stored (unserialize-Within now c rest)
          λ s' kept_now small. load_from-ends f now s' kept_now (omega arith))
]

-- Loading the conditions of a player ends, whatever the stream holds.
pub load_conditions-ends : (now : ℕ) (s : List ℕ) → load_conditions now s ≢ unfinished
unfolding load_conditions
load_conditions-ends now s = load_from-ends (suc (length s)) now s [] (omega arith)
