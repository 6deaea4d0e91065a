-- ===== src/Base/Strings.antt =====
-- JavaScript strings: lists of UTF-16 code units.
use Prim.Native.Nat.{ℕ}
use Prim.Native.Char.{code}
use Prim.Native.String.{String}
use mathlib.Core.Path.{◌≡◌, refl}
use mathlib.Core.Logic.{◌↔◌, ◌≢◌}
use mathlib.Core.Bool.{Bool, true, false, ◌&&◌, ◌||◌}
use mathlib.Core.List.{List, [], ◌∷◌, ◌++◌}
use native.Mathlib.Omega.{arith}
use dash_ota.Base.Tests.{◌==◌, if◌then◌else◌}

abbrev pub Text : Type 0
Text = List ℕ

-- A literal of ASCII characters, whose code points are its code units.
abbrev pub text : String → Text
text String.[] = []
text (String.◌∷◌ c s) = code c ∷ text s

infix 50 ◌===◌
unfoldable pub ◌===◌ : Text → Text → Bool
[] === [] = true
[] === (y ∷ ys) = false
(x ∷ xs) === [] = false
(x ∷ xs) === (y ∷ ys) = (x == y) && (xs === ys)

pub eq_iff : (a b : Text) → ((a === b) ≡ true) ↔ (a ≡ b)
unfolding ◌===◌
eq_iff [] [] = ground arith
eq_iff [] (y ∷ ys) = ground arith
eq_iff (x ∷ xs) [] = ground arith
eq_iff (x ∷ xs) (y ∷ ys) = ground (arith, eq_iff xs ys)

pub eq_refl : (a : Text) → (a === a) ≡ true
eq_refl a = (eq_iff a a).1 refl

pub eq-false_of_ne : (a b : Text) → a ≢ b → (a === b) ≡ false
eq-false_of_ne a b h = ground (arith, eq_iff a b)

-- `Set` of strings: the members in insertion order, and `add`, `has`.
abbrev pub contains : List Text → Text → Bool
contains [] t = false
contains (x ∷ xs) t = (x === t) || contains xs t

unfoldable pub set_add : List Text → Text → List Text
set_add xs t = if contains xs t then xs else xs ++ t ∷ []

contains-concat :
    (xs : List Text) (t u : Text) → contains (xs ++ t ∷ []) u ≡ (contains xs u || (t === u))
contains-concat [] t u = ground arith
contains-concat (x ∷ xs) t u = ground (arith, contains-concat xs t u)

pub contains_of_eq :
    (xs : List Text) (t u : Text) → (t === u) ≡ true → contains xs t ≡ contains xs u
contains_of_eq xs t u h = ground (arith, eq_iff t u)

pub contains-set_add :
    (xs : List Text) (t u : Text) → contains (set_add xs t) u ≡ (contains xs u || (t === u))
unfolding set_add
contains-set_add xs t u = ground (arith, contains-concat xs t u, contains_of_eq xs t u)

-- A set never lists a member twice.
abbrev pub IsDistinct : List Text → Type 0
IsDistinct [] = Unit {0}
IsDistinct (x ∷ xs) = (contains xs x ≡ false) × IsDistinct xs

concat-IsDistinct :
    (xs : List Text) (t : Text) → contains xs t ≡ false → IsDistinct xs → IsDistinct (xs ++ t ∷ [])
concat-IsDistinct [] t h d = (refl, tt)
concat-IsDistinct (x ∷ xs) t h d = (
  ground (arith, contains-concat xs t x, eq_iff t x, eq_iff x t),
  concat-IsDistinct xs t (ground arith) d.1,
)

pub set_add-IsDistinct : (xs : List Text) (t : Text) → IsDistinct xs → IsDistinct (set_add xs t)
unfolding set_add
set_add-IsDistinct xs t d = ground (arith, concat-IsDistinct xs t)
