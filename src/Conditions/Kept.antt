-- ===== src/Conditions/Kept.antt =====
-- src/iologindata.cpp: every condition that a player keeps is loaded again.
use ot_tibia_teste.Common.{
  ℕ, zero, suc, ◌+◌, ◌<◌, ◌≤◌, ◌≡◌, refl, List, [], ◌∷◌, ◌++◌, true, false, ◌==◌, if◌then◌else◌,
  none, some, length, arith, All, Bool-cases, inl, inr, length-append,
}
use ot_tibia_teste.Streams.{read, write}
use ot_tibia_teste.Conditions.{Condition, is_persistent, forever}
use ot_tibia_teste.Conditions.Storage.{done, unserialize}
use ot_tibia_teste.Conditions.Saving.{
  serialize_base, serialize_extra, serialize, save_conditions, create_from, expect, load_from,
  load_conditions, kept,
}
use ot_tibia_teste.Conditions.RoundTrip.{IsSound, read_back}
use ot_tibia_teste.Conditions.Loading.{
  turns_fit, length-put, create_from-serialize, unserialize-serialize,
}

-- A turn of the loop over the stream.
loaded_turn :
    (now f : ℕ) (c : Condition) (stored : List Condition) (s : List ℕ) {c0 : Condition}
    {s1 s2 : List ℕ}
    → create_from s ≡ some (c0, s1)
    → unserialize now c0 s1 ≡ done c s2
    → load_from (suc f) now s stored ≡ load_from f now s2 (c ∷ stored)
unfolding load_from
loaded_turn now f c stored s e k = rw (e, load_from, k) refl

-- The conditions that are kept, the last one first, each as it is read back.
unfoldable pub loaded : ℕ → List Condition → List Condition → List Condition
loaded now [] stored = stored
loaded now (c ∷ cs) stored =
    loaded now cs (if is_persistent c then read_back now c ∷ stored else stored)

persistent_ends : (c : Condition) → is_persistent c ≡ true → (c.ticks == forever) ≡ false
unfolding is_persistent
persistent_ends c e = ground arith

create_from-nil : create_from [] ≡ none
unfolding create_from expect read
create_from-nil = refl

loaded_end : (now f : ℕ) (stored : List Condition) → load_from (suc f) now [] stored ≡ kept stored
unfolding load_from
loaded_end now f stored = rw (create_from-nil, load_from) refl

kept_count : List Condition → ℕ
kept_count [] = 0
kept_count (c ∷ cs) = if is_persistent c then suc (kept_count cs) else kept_count cs

length-serialize : (c : Condition) (next : List ℕ) → 1 + length next ≤ length (serialize c next)
unfolding serialize serialize_base
length-serialize c next = omega (arith, turns_fit c.extra next, length-put)

kept_count-le : (cs : List Condition) → kept_count cs ≤ length (save_conditions cs)
unfolding kept_count save_conditions
kept_count-le [] = omega arith
kept_count-le (c ∷ cs) = ground (
  arith,
  kept_count-le cs,
  length-serialize c (write 1 254 ++ save_conditions cs),
  length-append (write 1 254) (save_conditions cs),
)

load_from-save :
    (now f : ℕ) (cs stored : List Condition)
    → All IsSound cs
    → kept_count cs < f
    → load_from f now (save_conditions cs) stored ≡ kept (loaded now cs stored)
unfolding save_conditions loaded kept_count serialize
load_from-save now zero cs stored h enough = absurd (omega arith)
load_from-save now (suc f) [] stored h enough = loaded_end now f stored
load_from-save now (suc f) (c ∷ cs) stored h enough = elim (Bool-cases (is_persistent c)) [
  | inl saved ↦
      let finite = persistent_ends c saved in
      let start =
        create_from-serialize now c h.0 finite
          (serialize_extra c.extra (write 1 254 ++ save_conditions cs)) in
      let back = unserialize-serialize now c h.0 finite (save_conditions cs) in
      rw
        (
          saved,
          loaded_turn now f (read_back now c) stored
              (serialize c (write 1 254 ++ save_conditions cs)) start back,
        )
        (load_from-save now f cs (read_back now c ∷ stored) h.1 (ground arith))
  | inr lost ↦ rw lost (load_from-save now (suc f) cs stored h.1 (ground arith))
]

-- The conditions of a player are saved and loaded without an error: those that are kept come back, the
-- last one first, with their type, id, flags and what their class writes. The ticks of a damage are
-- those of its rounds, and the time counts from the load on; a drunk player is as drunk as the default.
pub load_conditions-save_conditions :
    (now : ℕ) (cs : List Condition)
    → All IsSound cs
    → load_conditions now (save_conditions cs) ≡ kept (loaded now cs [])
unfolding load_conditions
load_conditions-save_conditions now cs h =
    load_from-save now (suc (length (save_conditions cs))) cs [] h (omega (arith, kept_count-le cs))
