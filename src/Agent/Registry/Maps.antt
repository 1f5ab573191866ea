-- ===== src/Agent/Registry/Maps.antt =====
-- Tests of the rows of a map, and what the operations on maps do to them.
use aisummoner.Prelude.{
  ℕ, ◌==◌, ◌≡◌, refl, Bool, true, false, ◌||◌, List, [], ◌∷◌, arith, any, update, delete,
}
use aisummoner.Prelude.Keyed.{has_key, Distinct}
use aisummoner.Prelude.Deletion.{any_other_key, any_same_key, same_key}
use aisummoner.Agent.Registry.{put}

module _ {ℓ} {A : Type ℓ} (q p : A → Bool) where
  pub none-delete : (xs : List A) → any q xs ≡ false → any q (delete p xs) ≡ false
  unfolding any delete
  none-delete [] h = refl
  none-delete (x ∷ xs) h = ground (arith, none-delete xs)

  module _ (f : A → A) where
    -- An update that brings no row under the test.
    pub none-update :
        ((x : A) → q x ≡ false → q (f x) ≡ false)
        → (xs : List A) → any q xs ≡ false
        → any q (update p f xs) ≡ false
    unfolding any update
    none-update off [] h = refl
    none-update off (x ∷ xs) h = ground (arith, off x, none-update off xs)

    -- An update that takes all rows of the test out of it.
    pub none-update_all :
        ((x : A) → p x ≡ true → q (f x) ≡ false)
        → ((x : A) → p x ≡ false → q x ≡ false)
        → (xs : List A) → any q (update p f xs) ≡ false
    unfolding any update
    none-update_all off out [] = refl
    none-update_all off out (x ∷ xs) = ground (arith, off x, out x, none-update_all off out xs)

module _ {ℓ} {A : Type ℓ} (key : A → ℕ) where
  -- A key is in a map after an entry is put there when it is the entry's or was there.
  pub any-put :
      (k : ℕ) (x : A) (xs : List A)
      → any (has_key key k) (put key x xs) ≡ (key x == k || any (has_key key k) xs)
  unfolding any put
  any-put k x xs = ground (arith, any_other_key key (key x) k xs, same_key key (key x) k xs)

  pub Distinct-put :
      (x : A) (xs : List A)
      → Distinct key (delete (has_key key (key x)) xs)
      → Distinct key (put key x xs)
  unfolding put
  Distinct-put x xs h = (any_same_key key (key x) xs, h)
