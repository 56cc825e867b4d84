-- ===== src/Geometry/Position/Order.antt =====
-- src/position.h: the comparison operators against the order that they stand for.
use ot_tibia_teste.Common.{◌≡◌, ◌⊎◌, ◌↔◌, true, false, arith}
use ot_tibia_teste.Geometry.Position.{Position, IsPosition, is_less, is_greater, is_equal, add, sub}

-- `operator<` is a strict total order that agrees with `operator==`: no position is below itself,
-- it is transitive, and of any two positions one is below the other unless `==` holds, in which
-- case they are the same.
pub is_less-strict_total :
    (p q r : Position)
    → (is_less p p ≡ false)
      × (is_less p q ≡ true → is_less q r ≡ true → is_less p r ≡ true)
      × (is_less p q ≡ true → is_less q p ≡ false)
      × ((is_less p q ≡ true) ⊎ (is_less q p ≡ true) ⊎ (is_equal p q ≡ true))
      × (is_equal p q ≡ true → p ≡ q)
unfolding is_less is_equal
is_less-strict_total p q r =
    (ground arith, λ h k. ground arith, λ h. ground arith, ground arith, λ h. ground arith)

-- `operator>` is not the converse of `operator<`: it holds of two positions exactly when the second
-- is below the first or they are equal, so it holds of a position and itself.
pub is_greater_lem :
    (p q : Position)
    → ((is_greater p q ≡ true) ↔ ((is_less q p ≡ true) ⊎ (p ≡ q))) × (is_greater p p ≡ true)
unfolding is_greater
is_greater_lem p q = ((λ h. ground arith, λ h. ground arith), ground arith)

-- For positions in range `operator-` undoes `operator+`, and the other way round.
pub sub-add :
    (p q : Position) → IsPosition p → IsPosition q → (sub (add p q) q ≡ p) × (add (sub p q) q ≡ p)
unfolding add sub
sub-add p q hp hq = (ground arith, ground arith)
