-- ===== src/Prelude/Sets.antt =====
-- Sets of texts as lists without repetition.
use native.Mathlib.Omega.{arith}
use client_server_architectu.Prelude.Tests.{if◌then◌else◌}
use mathlib.Core.List.{List, [], ◌∷◌}
use mathlib.Core.Bool.{Bool, true, false}
use text.Mathlib.TextEquality.{eq_iff}
use Prim.Native.String.{String}
use mathlib.Core.Path.{◌≡◌}
use text.Mathlib.Text.{◌==◌}

-- `s.contains(x)`
unfoldable pub contains : List String → String → Bool
contains [] x = false
contains (y ∷ s) x = if y == x then true else contains s x

-- `s.insert(x)`
unfoldable pub set_insert : String → List String → List String
set_insert x [] = x ∷ []
set_insert x (y ∷ s) = if y == x then y ∷ s else y ∷ set_insert x s

-- `s.erase(x)`
unfoldable pub set_erase : String → List String → List String
set_erase x [] = []
set_erase x (y ∷ s) = let rest = set_erase x s in if y == x then rest else y ∷ rest

pub contains-set_insert :
    (x y : String) (s : List String)
    → contains (set_insert x s) y ≡ (if x == y then true else contains s y)
unfolding contains set_insert
contains-set_insert x y [] = ground arith
contains-set_insert x y (z ∷ s) =
    ground (arith, contains-set_insert x y s, eq_iff z x, eq_iff x y, eq_iff z y)

pub contains-set_erase :
    (x y : String) (s : List String)
    → contains (set_erase x s) y ≡ (if x == y then false else contains s y)
unfolding contains set_erase
contains-set_erase x y [] = ground arith
contains-set_erase x y (z ∷ s) =
    ground (arith, contains-set_erase x y s, eq_iff z x, eq_iff x y, eq_iff z y)

pub ruleset set_laws = (contains-set_insert, contains-set_erase)
