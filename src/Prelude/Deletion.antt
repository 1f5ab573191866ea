-- ===== src/Prelude/Deletion.antt =====
-- Deleting the rows of one key.
use Prim.Native.Nat.{ℕ, suc}
use mathlib.Core.Path.{◌≡◌, refl}
use mathlib.Core.Bool.{true, false}
use mathlib.Core.List.{List, [], ◌∷◌}
use native.Mathlib.Omega.{arith}
use aisummoner.Prelude.Tests.{◌==◌}
use aisummoner.Prelude.Lists.{length}
use aisummoner.Prelude.Rows.{any, delete}
use aisummoner.Prelude.Keyed.{has_key, Distinct}

module _ {ℓ} {A : Type ℓ} (key : A → ℕ) where
  pub same_key :
      (j k : ℕ) (xs : List A) → (j == k) ≡ true → any (has_key key j) xs ≡ any (has_key key k) xs
  same_key j k xs h = ground arith

  pub any_other_key :
      (j k : ℕ) (xs : List A)
      → (j == k) ≡ false
      → any (has_key key k) (delete (has_key key j) xs) ≡ any (has_key key k) xs
  unfolding any delete
  any_other_key j k [] h = refl
  any_other_key j k (x ∷ xs) h = ground (arith, any_other_key j k xs h)

  pub any_same_key : (k : ℕ) (xs : List A) → any (has_key key k) (delete (has_key key k) xs) ≡ false
  unfolding any delete
  any_same_key k [] = refl
  any_same_key k (x ∷ xs) = ground (arith, any_same_key k xs)

  pub delete_absent :
      (k : ℕ) (xs : List A) → any (has_key key k) xs ≡ false → delete (has_key key k) xs ≡ xs
  unfolding any delete
  delete_absent k [] h = refl
  delete_absent k (x ∷ xs) h = ground (arith, delete_absent k xs)

  -- Deleting a key that is there takes one row.
  pub length-delete :
      (k : ℕ) (xs : List A)
      → Distinct key xs
      → any (has_key key k) xs ≡ true
      → suc (length (delete (has_key key k) xs)) ≡ length xs
  unfolding any delete
  length-delete k [] d h = cc
  length-delete k (x ∷ xs) d h =
      ground (arith, length-delete k xs d.1, delete_absent k xs, same_key (key x) k xs)
