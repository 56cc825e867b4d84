-- ===== src/Conditions/Fields.antt =====
-- src/condition.cpp: one attribute that was written, and the turn of `unserialize` that reads it.
use ot_tibia_teste.Common.{
  ℕ, suc, ◌+◌, ◌<◌, ◌≡◌, refl, ap, ◌∙◌, List, ◌++◌, Bool, true, false, not, ◌==◌, some, arith,
}
use ot_tibia_teste.Streams.{write}
use ot_tibia_teste.Streams.Laws.{read-write, capacity}
use ot_tibia_teste.Conditions.{Condition}
use ot_tibia_teste.Conditions.Storage.{
  done, stored, stored_at, set_elem, dispatch, unserialize_from,
}
use ot_tibia_teste.Conditions.Saving.{put, bit}

-- After `k` turns the loop stands at another condition and another rest of the stream.
pub record Advances (k now : ℕ) (c : Condition) (s : List ℕ) (c' : Condition) (s' : List ℕ)
    : Type 0 where
  pub reached : (f : ℕ) → unserialize_from (k + f) now c s ≡ unserialize_from f now c' s'

pub no_turn : (now : ℕ) (c : Condition) (s : List ℕ) → Advances 0 now c s c s
no_turn now c s = record { reached = λ f. let e : 0 + f ≡ f = omega arith in rw e refl }

pub turns_on :
    (j k now : ℕ) {c c' c'' : Condition} {s s' s'' : List ℕ}
    → Advances j now c s c' s'
    → Advances k now c' s' c'' s''
    → Advances (j + k) now c s c'' s''
turns_on j k now first second = record {
  reached = λ f.
      let e : j + k + f ≡ j + (k + f) = omega arith in
      rw e (first.reached (k + f) ∙ second.reached f);
}

-- One attribute, which the class takes.
pub one_turn :
    (now attr n v : ℕ) (c c' : Condition) (next : List ℕ)
    → attr < 254
    → dispatch now attr c c.extra (write n v ++ next) ≡ done c' next
    → Advances 1 now c (put attr n v next) c' next
unfolding put unserialize_from
one_turn now attr n v c c' next h e = record {
  reached = λ f.
      let one : 1 + f ≡ suc f = omega arith in
      let other : (attr == 254) ≡ false = ground arith in
      let taken = read-write 1 attr (write n v ++ next) (omega arith) in
      rw (one, unserialize_from, taken, other, e) refl;
}

pub stored-write :
    (n v : ℕ) (next : List ℕ) (make : ℕ → Condition)
    → v < capacity n
    → stored n (write n v ++ next) make ≡ done (make v) next
unfolding stored
stored-write n v next make h = rw (read-write n v next h, stored) refl

-- Where the value is cut to what the field holds.
pub stored-write_as :
    (n v : ℕ) (s : List ℕ) (make : ℕ → Condition) {c' : Condition}
    → v < capacity n
    → make v ≡ c'
    → stored n (write n v ++ s) make ≡ done c' s
stored-write_as n v s make h e = stored-write n v s make h ∙ ap (λ x. done x s) e

pub stored_at-write :
    (v i : ℕ) (next xs : List ℕ) {ys : List ℕ} (make : List ℕ → Condition)
    → v < capacity 4
    → set_elem xs i v ≡ some ys
    → stored_at (write 4 v ++ next) xs i make ≡ done (make ys) next
unfolding stored_at
stored_at-write v i next xs make h e = ground (arith, read-write 4 v next h, e)

pub bit-small : (b : Bool) → bit b < 2
bit-small true = omega arith
bit-small false = omega arith

pub bit-back : (b : Bool) → not (bit b == 0) ≡ b
bit-back true = refl
bit-back false = refl
