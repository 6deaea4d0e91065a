-- ===== src/Base/Members.antt =====
-- Membership that can be matched, for the lists that the program sorts and filters.
use mathlib.Core.Path.{◌≡◌}
use mathlib.Core.Bool.{Bool, true}
use mathlib.Core.Logic.{inl, inr}
use mathlib.Core.List.{List, [], ◌∷◌, Memᴰ}
use native.Mathlib.Omega.{arith}
use dash_ota.Base.Tests.{Bool-cases}
use dash_ota.Base.Lists.{keep_if}

module _ {ℓ} {A : Type ℓ} where
  pub mem-cons_map :
      (a : A) {b : A} {xs ys : List A} → (Memᴰ b xs → Memᴰ b ys) → Memᴰ b (a ∷ xs) → Memᴰ b (a ∷ ys)
  mem-cons_map a f (Memᴰ.head e) = Memᴰ.head e
  mem-cons_map a f (Memᴰ.tail k) = Memᴰ.tail (f k)

  pub mem-cons_swap : (a b : A) {c : A} {xs : List A} → Memᴰ c (a ∷ b ∷ xs) → Memᴰ c (b ∷ a ∷ xs)
  mem-cons_swap a b (Memᴰ.head e) = Memᴰ.tail (Memᴰ.head e)
  mem-cons_swap a b (Memᴰ.tail (Memᴰ.head e)) = Memᴰ.head e
  mem-cons_swap a b (Memᴰ.tail (Memᴰ.tail k)) = Memᴰ.tail (Memᴰ.tail k)

  pub mem-keep_if :
      (p : A → Bool) (xs : List A) (a : A) → Memᴰ a xs → p a ≡ true → Memᴰ a (keep_if p xs)
  mem-keep_if p [] a m h = elim m [ ]
  mem-keep_if p (x ∷ xs) a (Memᴰ.head e) h =
      let here : p x ≡ true = ground (arith, h) in rw here (Memᴰ.head e)
  mem-keep_if p (x ∷ xs) a (Memᴰ.tail k) h = elim (Bool-cases (p x)) [
    | inl taken ↦ rw taken (Memᴰ.tail (mem-keep_if p xs a k h))
    | inr left ↦ rw left (mem-keep_if p xs a k h)
  ]

  keep_if-taken :
      (p : A → Bool) (x a : A) (xs : List A)
      → p x ≡ true
      → (Memᴰ a (keep_if p xs) → Memᴰ a xs × (p a ≡ true))
      → Memᴰ a (x ∷ keep_if p xs)
      → Memᴰ a (x ∷ xs) × (p a ≡ true)
  keep_if-taken p x a xs taken ih (Memᴰ.head e) = (Memᴰ.head e, ground (arith, e, taken))
  keep_if-taken p x a xs taken ih (Memᴰ.tail k) = let (k', q) = ih k in (Memᴰ.tail k', q)

  pub keep_if-mem :
      (p : A → Bool) (xs : List A) (a : A) → Memᴰ a (keep_if p xs) → Memᴰ a xs × (p a ≡ true)
  keep_if-mem p [] a m = elim m [ ]
  keep_if-mem p (x ∷ xs) a m = elim (Bool-cases (p x)) [
    | inl taken ↦ keep_if-taken p x a xs taken (keep_if-mem p xs a) (rw taken at m)
    | inr left ↦ let (k, q) = keep_if-mem p xs a (rw left at m) in (Memᴰ.tail k, q)
  ]
