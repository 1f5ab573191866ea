-- ===== src/Prelude/Counting.antt =====
-- How many rows of a table with a key satisfy a test, before and after one of them changes.
use Prim.Native.Nat.{ℕ, ◌+◌, ◌<◌}
use mathlib.Core.Logic.{inl, inr}
use mathlib.Core.Path.{◌≡◌, refl, subst}
use mathlib.Core.Bool.{Bool, true, false}
use mathlib.Core.Option.{some}
use mathlib.Core.List.{List, [], ◌∷◌}
use native.Mathlib.Omega.{arith}
use aisummoner.Prelude.Tests.{if◌then◌else◌, ◌==◌, Bool-cases}
use aisummoner.Prelude.Lists.{All}
use aisummoner.Prelude.Rows.{first, any, count, update, delete}
use aisummoner.Prelude.Keyed.{has_key, Distinct}
use aisummoner.Prelude.Deletion.{same_key}

abbrev pub bit : Bool → ℕ
bit true = 1
bit false = 0

module _ {ℓ} {A : Type ℓ} where
  pub count-cons : (q : A → Bool) (x : A) (xs : List A) → count q (x ∷ xs) ≡ bit (q x) + count q xs
  unfolding count
  count-cons q x xs = ground arith

  pub any_of_count :
      (q r : A → Bool) (xs : List A)
      → All (λ x. q x ≡ true → r x ≡ true) xs
      → 0 < count q xs
      → any r xs ≡ true
  unfolding count any
  any_of_count q r [] h n = absurd (omega arith)
  any_of_count q r (x ∷ xs) h n = ground (arith, h.0, any_of_count q r xs h.1)

  pub count_of_none :
      (q r : A → Bool) (xs : List A)
      → All (λ x. q x ≡ true → r x ≡ true) xs
      → any r xs ≡ false
      → count q xs ≡ 0
  unfolding count any
  count_of_none q r [] h n = refl
  count_of_none q r (x ∷ xs) h n = ground (arith, h.0, count_of_none q r xs h.1)

  pub All-map {κ μ} :
      {P : A → Type κ} {Q : A → Type μ} (xs : List A) → ((x : A) → P x → Q x) → All P xs → All Q xs
  All-map [] f h = tt
  All-map (x ∷ xs) f h = (f x h.0, All-map xs f h.1)

  pub All-first {κ} :
      (P : A → Type κ) (q : A → Bool) (xs : List A) (x : A) → All P xs → first q xs ≡ some x → P x
  unfolding first
  All-first P q [] x h e = absurd (cc)
  All-first P q (y ∷ xs) x h e = elim (Bool-cases (q y)) [
    | inl here ↦
        let same : some y ≡ some x = rw here at e in let eq : y ≡ x = cc same in subst P eq h.0
    | inr there ↦ All-first P q xs x h.1 (rw there at e)
  ]

  pub All-delete {κ} :
      (P : A → Type κ) (p : A → Bool) (xs : List A) → All P xs → All P (delete p xs)
  unfolding delete
  All-delete P p [] h = tt
  All-delete P p (x ∷ xs) h = keep (p x) (All-delete P p xs h.1)
    where
      keep : (b : Bool) → All P (delete p xs) → All P (if b then delete p xs else x ∷ delete p xs)
      keep true k = k
      keep false k = (h.0, k)

  pub All-update {κ} :
      (P : A → Type κ) (p : A → Bool) (f : A → A) (xs : List A)
      → ((x : A) → P x → P (f x))
      → All P xs
      → All P (update p f xs)
  unfolding update
  All-update P p f [] k h = tt
  All-update P p f (x ∷ xs) k h = (one (p x), All-update P p f xs k h.1)
    where
      one : (b : Bool) → P (if b then f x else x)
      one true = k x h.0
      one false = h.0

module _ {ℓ} {A : Type ℓ} (key : A → ℕ) (q : A → Bool) where
  count-update_absent :
      (k : ℕ) (f : A → A) (xs : List A)
      → any (has_key key k) xs ≡ false
      → count q (update (has_key key k) f xs) ≡ count q xs
  unfolding any update count
  count-update_absent k f [] h = refl
  count-update_absent k f (x ∷ xs) h = ground (arith, count-update_absent k f xs)

  count-delete_absent :
      (k : ℕ) (xs : List A)
      → any (has_key key k) xs ≡ false
      → count q (delete (has_key key k) xs) ≡ count q xs
  unfolding any delete count
  count-delete_absent k [] h = refl
  count-delete_absent k (x ∷ xs) h = ground (arith, count-delete_absent k xs)

  pub count-update :
      (k : ℕ) (f : A → A) (xs : List A) (x : A)
      → Distinct key xs
      → first (has_key key k) xs ≡ some x
      → count q (update (has_key key k) f xs) + bit (q x) ≡ count q xs + bit (q (f x))
  unfolding first update count
  count-update k f [] x d e = absurd (cc)
  count-update k f (y ∷ xs) x d e =
      ground
        (arith, count-update k f xs x d.1, count-update_absent k f xs, same_key key (key y) k xs)

  pub count-delete :
      (k : ℕ) (xs : List A) (x : A)
      → Distinct key xs
      → first (has_key key k) xs ≡ some x
      → count q (delete (has_key key k) xs) + bit (q x) ≡ count q xs
  unfolding first delete count
  count-delete k [] x d e = absurd (cc)
  count-delete k (y ∷ xs) x d e =
      ground (arith, count-delete k xs x d.1, count-delete_absent k xs, same_key key (key y) k xs)

  pub count_one :
      (j : ℕ) (xs : List A) (x : A)
      → first (has_key key j) xs ≡ some x
      → q x ≡ true
      → 0 < count q xs
  unfolding first count
  count_one j [] x e h = absurd (cc)
  count_one j (y ∷ xs) x e h = ground (arith, count_one j xs x)

  -- Two rows of different keys count twice.
  pub count_two :
      (j k : ℕ) (xs : List A) (x y : A)
      → (j == k) ≡ false
      → first (has_key key j) xs ≡ some x
      → first (has_key key k) xs ≡ some y
      → q x ≡ true
      → q y ≡ true
      → 1 < count q xs
  unfolding first count
  count_two j k [] x y n e f hx hy = absurd (cc)
  count_two j k (z ∷ xs) x y n e f hx hy =
      ground (arith, count_two j k xs x y n, count_one j xs x, count_one k xs y)
