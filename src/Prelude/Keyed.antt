-- ===== src/Prelude/Keyed.antt =====
-- Tables with a primary key: no two rows have the same key, and the statements keep it so.
use mathlib.Core.Logic.{◌⊎◌, ◌≢◌, inl, inr}
use mathlib.Core.Path.{◌≡◌, refl}
use mathlib.Core.Bool.{Bool, true, false, ◌||◌, ◌&&◌}
use mathlib.Core.Option.{none, some}
use mathlib.Core.List.{List, [], ◌∷◌, ◌++◌}
use Prim.Native.Nat.{ℕ}
use native.Mathlib.Omega.{arith}
use aisummoner.Prelude.Tests.{if◌then◌else◌, ◌==◌, Bool-cases}
use aisummoner.Prelude.Rows.{first, any, update, delete, count}

module _ {ℓ} {A : Type ℓ} (key : A → ℕ) where
  abbrev pub has_key : ℕ → A → Bool
  has_key k x = key x == k

  -- No two rows have the same key.
  abbrev pub Distinct : List A → Type 0
  Distinct [] = Unit {0}
  Distinct (x ∷ xs) = (any (has_key (key x)) xs ≡ false) × Distinct xs

  pub any-delete :
      (p : A → Bool) (k : ℕ) (xs : List A)
      → any (has_key k) xs ≡ false
      → any (has_key k) (delete p xs) ≡ false
  unfolding any delete
  any-delete p k [] h = refl
  any-delete p k (x ∷ xs) h = ground (arith, any-delete p k xs)

  pub first_of_absent :
      (k : ℕ) (xs : List A) → any (has_key k) xs ≡ false → first (has_key k) xs ≡ none
  unfolding any first
  first_of_absent k [] h = refl
  first_of_absent k (x ∷ xs) h = ground (arith, first_of_absent k xs)

  pub Distinct-delete : (p : A → Bool) (xs : List A) → Distinct xs → Distinct (delete p xs)
  unfolding delete
  Distinct-delete p [] h = tt
  Distinct-delete p (x ∷ xs) h =
      delete_step (p x) (Distinct-delete p xs h.1) (any-delete p (key x) xs h.0)
    where
      delete_step :
          (b : Bool)
          → Distinct (delete p xs)
          → any (has_key (key x)) (delete p xs) ≡ false
          → Distinct (if b then delete p xs else x ∷ delete p xs)
      delete_step true d a = d
      delete_step false d a = (a, d)

  -- A row that is looked up after a deletion is the row from before, or has gone.
  pub first-delete :
      (p : A → Bool) (k : ℕ) (xs : List A)
      → Distinct xs
      → (first (has_key k) (delete p xs) ≡ none)
        ⊎ (first (has_key k) (delete p xs) ≡ first (has_key k) xs)
  unfolding first delete
  first-delete p k [] h = inl refl
  first-delete p k (x ∷ xs) h =
      ground (
        arith,
        first-delete p k xs h.1,
        first_of_absent k (delete p xs),
        any-delete p (key x) xs h.0,
      )

  pub any-append :
      (k : ℕ) (xs : List A) (x : A)
      → any (has_key k) (xs ++ x ∷ []) ≡ (any (has_key k) xs || key x == k)
  unfolding any
  any-append k [] x = ground arith
  any-append k (y ∷ xs) x = ground (arith, any-append k xs x)

  pub Distinct-append :
      (xs : List A) (x : A)
      → any (has_key (key x)) xs ≡ false
      → Distinct xs
      → Distinct (xs ++ x ∷ [])
  unfolding any
  Distinct-append [] x a h = (refl, tt)
  Distinct-append (y ∷ xs) x a h =
      (ground (arith, any-append (key y) xs x), Distinct-append xs x (ground arith) h.1)

  module _ (p : A → Bool) (f : A → A) (same : (x : A) → key (f x) ≡ key x) where
    pub any-update_key :
        (k : ℕ) (xs : List A) → any (has_key k) (update p f xs) ≡ any (has_key k) xs
    unfolding any update
    any-update_key k [] = refl
    any-update_key k (x ∷ xs) = ground (arith, same x, any-update_key k xs)

    pub Distinct-update : (xs : List A) → Distinct xs → Distinct (update p f xs)
    unfolding update
    Distinct-update [] h = tt
    Distinct-update (x ∷ xs) h =
        (ground (arith, same x, any-update_key (key x) xs), Distinct-update xs h.1)

  guarded_absent :
      (k : ℕ) (q : A → Bool) (xs : List A)
      → any (has_key k) xs ≡ false
      → first (λ x. key x == k && q x) xs ≡ none
  unfolding any first
  guarded_absent k q [] h = refl
  guarded_absent k q (x ∷ xs) h = ground (arith, guarded_absent k q xs)

  -- A row that a query with the key and a further test finds is the row of the key.
  pub first_of_guarded :
      (k : ℕ) (q : A → Bool) (xs : List A) (y : A)
      → Distinct xs
      → first (λ x. key x == k && q x) xs ≡ some y
      → first (has_key k) xs ≡ some y
  unfolding first
  first_of_guarded k q [] y d e = cc
  first_of_guarded k q (x ∷ xs) y d e =
      ground (arith, first_of_guarded k q xs y d.1, guarded_absent k q xs)

  -- An update of rows of one key that affects a row affects the row of the key.
  pub first-update_hit :
      (k : ℕ) (p : A → Bool) (f : A → A) (xs : List A)
      → ((x : A) → key (f x) ≡ key x)
      → ((x : A) → p x ≡ true → (key x == k) ≡ true)
      → Distinct xs
      → count p xs ≢ 0
      → (x : A) × (p x ≡ true) × (first (has_key k) (update p f xs) ≡ some (f x))
  unfolding first update count
  first-update_hit k p f [] same keyed d n = absurd (n refl)
  first-update_hit k p f (x ∷ xs) same keyed d n = elim (Bool-cases (p x)) [
    | inl hit ↦ (x, hit, rw hit (rw (same x, keyed x hit)))
    | inr miss ↦
        let (y, py, e) = first-update_hit k p f xs same keyed d.1 (rw miss at n) in
        (y, py, rw miss (other_row (Bool-cases (key x == k)) y py e))
  ]
    where
      other_row :
          ((key x == k) ≡ true) ⊎ ((key x == k) ≡ false)
          → (y : A) → p y ≡ true
          → first (has_key k) (update p f xs) ≡ some (f y)
          → (if key x == k then some x else first (has_key k) (update p f xs)) ≡ some (f y)
      other_row (inr e) y py h = rw e h
      other_row (inl e) y py h =
          ground (arith, first_of_absent k (update p f xs), any-update_key p f same k xs)
