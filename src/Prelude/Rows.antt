-- ===== src/Prelude/Rows.antt =====
-- The rows of a database table.
-- `UPDATE t SET f WHERE p` is `update p f`, the rows that it affects are `count p`, a `SELECT` of
-- one row is `first p`, `EXISTS` is `any p`, and `DELETE FROM t WHERE p` is `delete p`.
use Prim.Native.Nat.{ℕ, suc}
use mathlib.Core.Path.{◌≡◌, refl}
use mathlib.Core.Bool.{Bool, true, false, ◌||◌}
use mathlib.Core.Option
use mathlib.Core.Option.{Option, none, some}
use mathlib.Core.List.{List, [], ◌∷◌, ◌++◌}
use native.Mathlib.Omega.{arith}
use aisummoner.Prelude.Tests.{if◌then◌else◌, is_some}

module _ {ℓ} {A : Type ℓ} where
  unfoldable pub first : (A → Bool) → List A → Option A
  first p [] = none
  first p (x ∷ xs) = if p x then some x else first p xs

  unfoldable pub any : (A → Bool) → List A → Bool
  any p [] = false
  any p (x ∷ xs) = p x || any p xs

  unfoldable pub count : (A → Bool) → List A → ℕ
  count p [] = 0
  count p (x ∷ xs) = let rest = count p xs in if p x then suc rest else rest

  unfoldable pub update : (A → Bool) → (A → A) → List A → List A
  update p f [] = []
  update p f (x ∷ xs) = (if p x then f x else x) ∷ update p f xs

  unfoldable pub delete : (A → Bool) → List A → List A
  delete p [] = []
  delete p (x ∷ xs) = let rest = delete p xs in if p x then rest else x ∷ rest

  -- The row that an update makes of a row.
  abbrev pub updated : (A → Bool) → (A → A) → A → A
  updated p f x = if p x then f x else x

  -- An update that no test of the query can tell moves with the query.
  pub first-update :
      (q p : A → Bool) (f : A → A) (xs : List A)
      → ((x : A) → q (f x) ≡ q x)
      → first q (update p f xs) ≡ Option.map (updated p f) (first q xs)
  unfolding first update
  first-update q p f [] h = refl
  first-update q p f (x ∷ xs) h = ground (arith, h x, first-update q p f xs h)

  pub any-update :
      (q p : A → Bool) (f : A → A) (xs : List A)
      → ((x : A) → q (f x) ≡ q x)
      → any q (update p f xs) ≡ any q xs
  unfolding any update
  any-update q p f [] h = refl
  any-update q p f (x ∷ xs) h = ground (arith, h x, any-update q p f xs h)

  pub first_sound : (q : A → Bool) (xs : List A) (y : A) → first q xs ≡ some y → q y ≡ true
  unfolding first
  first_sound q [] y e = cc
  first_sound q (x ∷ xs) y e = ground (arith, first_sound q xs y)

  pub any-first : (q : A → Bool) (xs : List A) → any q xs ≡ is_some (first q xs)
  unfolding any first
  any-first q [] = refl
  any-first q (x ∷ xs) = ground (arith, any-first q xs)

  pub first-append :
      (q : A → Bool) (xs ys : List A)
      → first q (xs ++ ys) ≡ elim (first q xs) [ none ↦ first q ys | some x ↦ some x ]
  unfolding first
  first-append q [] ys = refl
  first-append q (x ∷ xs) ys = ground (arith, first-append q xs ys)
