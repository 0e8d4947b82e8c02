-- ===== src/GameWorld/Count.antt =====
-- How often an object is listed, for GameScene.cpp.
use jun_core_v.Common.{ℕ, ◌+◌, ◌-◌, ◌≡◌, ◌≢◌, List, [], ◌∷◌, ◌++◌, ◌==◌, if◌then◌else◌, arith}
use jun_core_v.GameWorld.{remove_first}

unfoldable pub count : ℕ → List ℕ → ℕ
count obj [] = 0
count obj (x ∷ xs) = (if obj == x then 1 else 0) + count obj xs

pub count-append : (obj : ℕ) (xs ys : List ℕ) → count obj (xs ++ ys) ≡ count obj xs + count obj ys
unfolding count
count-append obj [] ys = omega arith
count-append obj (x ∷ xs) ys = omega (arith, count-append obj xs ys)

pub count-remove_first :
    (obj : ℕ) (xs : List ℕ) → count obj (remove_first obj xs) ≡ count obj xs - 1
unfolding count remove_first
count-remove_first obj [] = omega arith
count-remove_first obj (x ∷ xs) = ground (arith, count-remove_first obj xs)

pub count-remove_first_other :
    (obj other : ℕ) (xs : List ℕ) → obj ≢ other → count other (remove_first obj xs) ≡ count other xs
unfolding count remove_first
count-remove_first_other obj other [] h = omega arith
count-remove_first_other obj other (x ∷ xs) h =
    ground (arith, count-remove_first_other obj other xs h)
