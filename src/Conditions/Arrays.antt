-- ===== src/Conditions/Arrays.antt =====
-- src/condition.cpp: the attributes that are written more than once.
use ot_tibia_teste.Common.{
  ℕ, suc, ◌+◌, ◌≡◌, refl, sym, subst, ◌∙◌, List, [], ◌∷◌, ◌++◌, false, some, length, arith, All,
  length-append,
}
use mathlib.Core.List.{append_assoc}
use ot_tibia_teste.Conditions.{
  Attributes, attributes, Condition, new_extra, of_attributes, zeros6, zeros4,
}
use ot_tibia_teste.Conditions.Storage.{unserialize_attributes, set_elem}
use ot_tibia_teste.Conditions.Saving.{put, bit, serialize_extra, put_each}
use ot_tibia_teste.Conditions.Fields.{
  Advances, no_turn, turns_on, one_turn, stored-write_as, stored_at-write, bit-small, bit-back,
}
use ot_tibia_teste.Conditions.Extras.{IsWord}

set_elem-append :
    (pre old : List ℕ) (o v : ℕ) → set_elem (pre ++ o ∷ old) (length pre) v ≡ some (pre ++ v ∷ old)
unfolding set_elem
set_elem-append [] old o v = refl
set_elem-append (x ∷ pre) old o v = rw (set_elem-append pre old o v) refl

-- An array that is read element by element, `make` of the array and the index of the next element.
module _ (now attr : ℕ) (make : List ℕ → ℕ → Condition)
    (turn : (xs ys : List ℕ) (i v : ℕ) (next : List ℕ)
      → IsWord v
      → set_elem xs i v ≡ some ys
      → Advances 1 now (make xs i) (put attr 4 v next) (make ys (i + 1)) next) where
  each_turns :
      (vs pre old xs zs : List ℕ) (i j : ℕ) (next : List ℕ)
      → length old ≡ length vs
      → All IsWord vs
      → xs ≡ pre ++ old
      → zs ≡ pre ++ vs
      → i ≡ length pre
      → j ≡ length pre + length vs
      → Advances (length vs) now (make xs i) (put_each attr vs next) (make zs j) next
  unfolding put_each
  each_turns [] pre [] xs zs i j next same words ex ez ei ej =
      let index : i ≡ j = omega arith in
      subst (λ z. Advances 0 now (make xs i) next (make z j) next) (ex ∙ sym ez)
        (subst (λ k. Advances 0 now (make xs i) next (make xs k) next) index
          (no_turn now (make xs i) next))
  each_turns [] pre (o ∷ old) xs zs i j next same words ex ez ei ej = absurd (omega arith)
  each_turns (v ∷ vs) pre [] xs zs i j next same words ex ez ei ej = absurd (omega arith)
  each_turns (v ∷ vs) pre (o ∷ old) xs zs i j next same words ex ez ei ej =
      let wrote : set_elem xs i v ≡ some (pre ++ v ∷ old) =
        rw (ex, ei) (set_elem-append pre old o v) in
      let first = turn xs (pre ++ v ∷ old) i v (put_each attr vs next) words.0 wrote in
      let more = length-append pre (v ∷ []) in
      let rest =
        each_turns vs (pre ++ v ∷ []) old (pre ++ v ∷ old) zs (i + 1) j next (omega arith) words.1
          (sym (append_assoc pre (v ∷ []) old)) (ez ∙ sym (append_assoc pre (v ∷ []) vs))
          (omega (arith, more)) (omega (arith, more)) in
      let count : 1 + length vs ≡ suc (length vs) = omega arith in
      subst
        (λ n. Advances n now (make xs i) (put attr 4 v (put_each attr vs next)) (make zs j) next)
        count (turns_on 1 (length vs) now first rest)

module _ (now : ℕ) (c : Condition) (a : Attributes) where
  abbrev with_skills : List ℕ → ℕ → Condition
  with_skills xs i = record c { extra = attributes (record a { skills = xs; current_skill = i }) }

  abbrev with_stats : List ℕ → ℕ → Condition
  with_stats xs i = record c { extra = attributes (record a { stats = xs; current_stat = i }) }

  abbrev with_specials : List ℕ → ℕ → Condition
  with_specials xs i = record c {
    extra = attributes (record a { special_skills = xs; current_special_skill = i });
  }

  skills_turn :
      (xs ys : List ℕ) (i v : ℕ) (next : List ℕ)
      → IsWord v
      → set_elem xs i v ≡ some ys
      → Advances 1 now (with_skills xs i) (put 22 4 v next) (with_skills ys (i + 1)) next
  unfolding unserialize_attributes
  skills_turn xs ys i v next h e =
      one_turn now 22 4 v _ _ _ (omega arith) (stored_at-write v i next xs _ h e)

  stats_turn :
      (xs ys : List ℕ) (i v : ℕ) (next : List ℕ)
      → IsWord v
      → set_elem xs i v ≡ some ys
      → Advances 1 now (with_stats xs i) (put 23 4 v next) (with_stats ys (i + 1)) next
  unfolding unserialize_attributes
  stats_turn xs ys i v next h e =
      one_turn now 23 4 v _ _ _ (omega arith) (stored_at-write v i next xs _ h e)

  specials_turn :
      (xs ys : List ℕ) (i v : ℕ) (next : List ℕ)
      → IsWord v
      → set_elem xs i v ≡ some ys
      → Advances 1 now (with_specials xs i) (put 30 4 v next) (with_specials ys (i + 1)) next
  unfolding unserialize_attributes
  specials_turn xs ys i v next h e =
      one_turn now 30 4 v _ _ _ (omega arith) (stored_at-write v i next xs _ h e)

-- The attributes are arrays of the sizes that the class has, of words.
pub record AttributesFit (a : Attributes) : Type 0 where
  pub skills_size : length a.skills ≡ 7
  pub stats_size : length a.stats ≡ 4
  pub special_skills_size : length a.special_skills ≡ 6
  pub skills_words : All IsWord a.skills
  pub stats_words : All IsWord a.stats
  pub special_skills_words : All IsWord a.special_skills

-- What comes back: percentages are not written, and the indices stand at the ends.
abbrev pub read_attributes : Attributes → Attributes
read_attributes a = record {
  skills = a.skills;
  skills_percent = 0 ∷ zeros6;
  special_skills = a.special_skills;
  stats = a.stats;
  stats_percent = zeros4;
  current_skill = 7;
  current_special_skill = 6;
  current_stat = 4;
  disable_defense = a.disable_defense;
}

abbrev pub attribute_turns : Attributes → ℕ
attribute_turns a = length a.skills + (length a.stats + (1 + length a.special_skills))

pub attributes_turns :
    (now : ℕ) (c : Condition) (next : List ℕ) (a : Attributes)
    → AttributesFit a
    → Advances
        (attribute_turns a)
        now
        (record c { extra = new_extra of_attributes 0 })
        (serialize_extra (attributes a) next)
        (record c { extra = attributes (read_attributes a) })
        next
unfolding unserialize_attributes
attributes_turns now c next a h =
    let none_read = record (read_attributes a) {
      skills = 0 ∷ zeros6;
      current_skill = 0;
      stats = zeros4;
      current_stat = 0;
      special_skills = zeros6;
      current_special_skill = 0;
      disable_defense = false;
    } in
    let skills_read = record none_read { skills = a.skills; current_skill = 7 } in
    let stats_read = record skills_read { stats = a.stats; current_stat = 4 } in
    let defense_read = record stats_read { disable_defense = a.disable_defense } in
    turns_on (length a.skills) _ now
      (each_turns now 22 (with_skills now c none_read) (skills_turn now c none_read) a.skills []
        (0 ∷ zeros6) (0 ∷ zeros6) a.skills 0 7 _ (omega (arith, h.skills_size)) h.skills_words refl
        refl refl (omega (arith, h.skills_size)))
      (turns_on (length a.stats) _ now
        (each_turns now 23 (with_stats now c skills_read) (stats_turn now c skills_read) a.stats []
          zeros4 zeros4 a.stats 0 4 _ (omega (arith, h.stats_size)) h.stats_words refl refl refl
          (omega (arith, h.stats_size)))
        (turns_on 1 _ now
          (one_turn now 29 1 (bit a.disable_defense) _ _ _ (omega arith) (
            stored-write_as 1 (bit a.disable_defense) _ _
              (omega (arith, bit-small a.disable_defense))
              (λ i. record c {
                extra =
                    attributes
                      (record stats_read { disable_defense = bit-back a.disable_defense i });
              })))
          (each_turns now 30 (with_specials now c defense_read) (specials_turn now c defense_read)
            a.special_skills [] zeros6 zeros6 a.special_skills 0 6 next
            (omega (arith, h.special_skills_size)) h.special_skills_words refl refl refl
            (omega (arith, h.special_skills_size)))))
