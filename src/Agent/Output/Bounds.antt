-- ===== src/Agent/Output/Bounds.antt =====
-- The sizes of truncated output and of excerpts, and what they keep.
use Prim.Native.Nat.{min}
use aisummoner.Prelude.{
  ℕ, zero, suc, ◌+◌, ◌-◌, ◌≤◌, ◌<◌, ◌≡◌, refl, inl, inr, Bool, true, false, arith, length, take,
  length-take, leb, ltb, ltb→lt, Bool-cases, if◌then◌else◌, [], ◌∷◌, ap, sym, ◌∙◌,
}
use aisummoner.Store.Data.{Bytes}
use aisummoner.Agent.Output.{Truncated, truncate_output, max_output_excerpt}

take_all : (xs : Bytes) (n : ℕ) → length xs ≤ n → take n xs ≡ xs
take_all [] zero h = refl
take_all [] (suc n) h = refl
take_all (x ∷ xs) zero h = absurd (omega arith)
take_all (x ∷ xs) (suc n) h = ap (λ r. x ∷ r) (take_all xs n (omega arith))

-- `kept` is what is left of `bytes` when it gets at most `room` bytes.
abbrev Cut : Bytes → ℕ → Bytes → Type 0
Cut bytes room kept = (length kept ≡ min room (length bytes)) × (kept ≡ take room bytes)

Cut-whole : (bytes : Bytes) (room : ℕ) → length bytes ≤ room → Cut bytes room bytes
Cut-whole bytes room h = (omega arith, sym (take_all bytes room h))

-- The limit as the code computes it.
abbrev limit : ℕ → Bytes → ℕ
limit room bytes = if ltb room (length bytes) then room else length bytes

limit-min : (room : ℕ) (bytes : Bytes) → limit room bytes ≡ min room (length bytes)
limit-min room bytes = ground arith

min_room :
    (room : ℕ) (bytes : Bytes) → ltb room (length bytes) ≡ true → min room (length bytes) ≡ room
min_room room bytes h = omega (arith, ltb→lt room (length bytes) h)

fits : (room : ℕ) (bytes : Bytes) → ltb room (length bytes) ≡ false → length bytes ≤ room
fits room bytes h = ground arith

take-min : (room : ℕ) (bytes : Bytes) → take (min room (length bytes)) bytes ≡ take room bytes
take-min room bytes = elim (Bool-cases (ltb room (length bytes))) [
  | inl h ↦ ap (λ n. take n bytes) (min_room room bytes h)
  | inr h ↦
      take_all bytes (min room (length bytes)) (omega (arith, fits room bytes h))
      ∙ sym (take_all bytes room (fits room bytes h))
]

Cut-take : (bytes : Bytes) (room : ℕ) → Cut bytes room (take (limit room bytes) bytes)
Cut-take bytes room = (
  length-take (limit room bytes) bytes ∙ omega (arith, limit-min room bytes),
  ap (λ n. take n bytes) (limit-min room bytes) ∙ take-min room bytes,
)

length-limit :
    (room : ℕ) (bytes : Bytes) → length (take (limit room bytes) bytes) ≡ limit room bytes
length-limit room bytes = length-take (limit room bytes) bytes ∙ omega (arith, limit-min room bytes)

Cut-room :
    (total : ℕ) {n m : ℕ} (bytes : Bytes) {kept : Bytes}
    → n ≡ m
    → Cut bytes (total - m) kept
    → Cut bytes (total - n) kept
Cut-room total bytes e cut = rw e cut

module _ (stdout stderr : Bytes) (maximum : ℕ) where
  whole :
      leb (length stdout + length stderr) maximum ≡ true → length stdout + length stderr ≤ maximum
  whole h = ground arith

  room_out : leb (length stdout + length stderr) maximum ≡ true → length stdout ≤ maximum
  room_out h = omega (arith, whole h)

  room_err :
      leb (length stdout + length stderr) maximum ≡ true → length stderr ≤ maximum - length stdout
  room_err h = omega (arith, whole h)

  not_longer :
      leb (length stdout + length stderr) maximum ≡ true
      → false ≡ ltb maximum (length stdout + length stderr)
  not_longer h = ground arith

  longer :
      leb (length stdout + length stderr) maximum ≡ false
      → true ≡ ltb maximum (length stdout + length stderr)
  longer h = ground arith

abbrev pub TruncationSays : Bytes → Bytes → ℕ → Truncated → Type 0
TruncationSays stdout stderr maximum r =
    (r.truncated ≡ ltb maximum (length stdout + length stderr))
    × Cut stdout maximum (r.stdout)
    × Cut stderr (maximum - length (r.stdout)) (r.stderr)

-- Output is truncated exactly when both streams together exceed the maximum. The standard output
-- is cut to the maximum and the standard error to what is left of it, each from its end.
pub truncate_output_sound :
    (stdout stderr : Bytes) (maximum : ℕ)
    → TruncationSays stdout stderr maximum (truncate_output stdout stderr maximum)
unfolding truncate_output
truncate_output_sound stdout stderr maximum =
    elim (Bool-cases (leb (length stdout + length stderr) maximum)) [
      | inl h ↦ rw h (
        not_longer stdout stderr maximum h,
        Cut-whole stdout maximum (room_out stdout stderr maximum h),
        Cut-whole stderr (maximum - length stdout) (room_err stdout stderr maximum h),
      )
      | inr h ↦ rw h (
        longer stdout stderr maximum h,
        Cut-take stdout maximum,
        Cut-room maximum stderr (length-limit maximum stdout)
            (Cut-take stderr (maximum - limit maximum stdout)),
      )
    ]

-- `r` is the longest valid prefix of `bytes` that has at most `n` bytes.
abbrev pub LongestValid : (Bytes → Bool) → ℕ → Bytes → Bytes → Type 0
LongestValid valid n bytes r =
    (valid r ≡ true)
    × ((k : ℕ) × (k ≤ n)
        × (r ≡ take k bytes)
        × ((m : ℕ) → m ≤ n → valid (take m bytes) ≡ true → m ≤ k))

abbrev pub ExcerptSays : (Bytes → Bool) → Bytes → Bytes → Type 0
ExcerptSays valid source r =
    (length r ≤ max_output_excerpt)
    × (length source ≤ max_output_excerpt → r ≡ source)
    × (max_output_excerpt < length source → LongestValid valid max_output_excerpt source r)
