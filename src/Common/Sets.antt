-- ===== src/Common/Sets.antt =====
-- `std::set` of sequence ids as an increasing list, and occurrences counted in a list.
use Prim.Native.Nat.{ℕ, ◌+◌, ◌<◌}
use mathlib.Core.Path.{◌≡◌, refl}
use mathlib.Core.Bool.{Bool, true, false, ◌||◌}
use mathlib.Core.List.{List, [], ◌∷◌, ◌++◌}
use native.Mathlib.Omega.{arith}
use radixforge.Common.Tests.{ltb, ◌==◌, if◌then◌else◌}

-- 1 where the numbers agree, 0 where they differ.
abbrev pub indicator : ℕ → ℕ → ℕ
indicator a b = if a == b then 1 else 0

unfoldable pub count : ℕ → List ℕ → ℕ
count s [] = 0
count s (x ∷ xs) = indicator x s + count s xs

unfoldable pub contains : ℕ → List ℕ → Bool
contains s [] = false
contains s (x ∷ xs) = x == s || contains s xs

-- `insert`: an id that is present is not added again.
unfoldable pub set_insert : ℕ → List ℕ → List ℕ
set_insert s [] = s ∷ []
set_insert s (x ∷ xs) =
    if x == s then x ∷ xs else if ltb s x then s ∷ x ∷ xs else x ∷ set_insert s xs

unfoldable pub set_erase : ℕ → List ℕ → List ℕ
set_erase s [] = []
set_erase s (x ∷ xs) = if x == s then xs else x ∷ set_erase s xs

pub count-append : (s : ℕ) (xs ys : List ℕ) → count s (xs ++ ys) ≡ count s xs + count s ys
unfolding count
count-append s [] ys = omega arith
count-append s (x ∷ xs) ys = omega (arith, count-append s xs ys)

pub count-set_insert :
    (s y : ℕ) (xs : List ℕ)
    → count s xs ≡ 0
    → count y (set_insert s xs) ≡ count y xs + indicator s y
unfolding count set_insert
count-set_insert s y [] h = omega arith
count-set_insert s y (x ∷ xs) h = ground (arith, count-set_insert s y xs)

pub count-set_erase :
    (s y : ℕ) (xs : List ℕ) → 0 < count s xs → count y (set_erase s xs) + indicator s y ≡ count y xs
unfolding count set_erase
count-set_erase s y [] h = absurd (omega arith)
count-set_erase s y (x ∷ xs) h = ground (arith, count-set_erase s y xs)

pub contains-count : (s : ℕ) (xs : List ℕ) → contains s xs ≡ true → 0 < count s xs
unfolding contains count
contains-count s [] h = cc
contains-count s (x ∷ xs) h = ground (arith, contains-count s xs)

pub not-contains-count : (s : ℕ) (xs : List ℕ) → contains s xs ≡ false → count s xs ≡ 0
unfolding contains count
not-contains-count s [] h = refl
not-contains-count s (x ∷ xs) h = ground (arith, not-contains-count s xs)
