-- ===== src/Pairing/Codes.antt =====
-- internal/pairing/service.go: the runes of pairing codes, and texts without spaces and dashes.
use aisummoner.Prelude.{
  ℕ, zero, suc, ◌<◌, ◌==◌, ◌≡◌, ◌≢◌, refl, ap, ◌∙◌, Bool, true, false, ◌&&◌, ◌||◌, List, [], ◌∷◌,
  ◌++◌, map, length, take, any, All, arith, leb,
}
use Prim.Native.Nat.{◌%◌}
use aisummoner.Pairing.{
  code_alphabet, in_alphabet, every, drop_spaces, drop_spaces_end, unless_space, trim_space,
  remove_dashes, byte_len, nth, code_rune, drop,
}

-- A capital letter or a digit.
abbrev pub is_code_rune : ℕ → Bool
is_code_rune c = (leb 65 c && leb c 90) || (leb 48 c && leb c 57)

every_sound :
    (p : ℕ → Bool) (xs : List ℕ) (c : ℕ)
    → every p xs ≡ true
    → any (λ a. a == c) xs ≡ true
    → p c ≡ true
unfolding every any
every_sound p [] c h m = absurd (cc)
every_sound p (x ∷ xs) c h m = ground (arith, every_sound p xs c)

alphabet_runes : every is_code_rune code_alphabet ≡ true
unfolding every code_alphabet
alphabet_runes = refl

pub in_alphabet-code_rune : (c : ℕ) → in_alphabet c ≡ true → is_code_rune c ≡ true
unfolding in_alphabet
in_alphabet-code_rune c h = every_sound is_code_rune code_alphabet c alphabet_runes h

pub every-All : (p : ℕ → Bool) (xs : List ℕ) → every p xs ≡ true → All (λ c. p c ≡ true) xs
unfolding every
every-All p [] h = tt
every-All p (x ∷ xs) h = (ground arith, every-All p xs (ground arith))

pub All-every : (p : ℕ → Bool) (xs : List ℕ) → All (λ c. p c ≡ true) xs → every p xs ≡ true
unfolding every
All-every p [] h = refl
All-every p (x ∷ xs) h = ground (arith, h.0, All-every p xs h.1)

nth-any : (i : ℕ) (xs : List ℕ) → i < length xs → any (λ a. a == nth i xs) xs ≡ true
unfolding any
nth-any i [] h = absurd (omega (arith, h))
nth-any zero (x ∷ xs) h = ground arith
nth-any (suc i) (x ∷ xs) h = ground (arith, nth-any i xs)

alphabet_length : length code_alphabet ≡ 32
unfolding code_alphabet
alphabet_length = refl

-- The runes that the generator picks are of the alphabet.
pub code_rune-in_alphabet : (value : ℕ) → in_alphabet (code_rune value) ≡ true
unfolding in_alphabet code_rune
code_rune-in_alphabet value = nth-any (value % 32) code_alphabet (omega (arith, alphabet_length))

pub map-code_rune :
    (xs : List ℕ)
    → (length (map code_rune xs) ≡ length xs) × All (λ c. in_alphabet c ≡ true) (map code_rune xs)
map-code_rune [] = (refl, tt)
map-code_rune (x ∷ xs) =
    (ap suc (map-code_rune xs).0, (code_rune-in_alphabet x, (map-code_rune xs).1))

module _ (space : ℕ → Bool) where
  pub drop_spaces-append :
      (before cs : List ℕ)
      → All (λ c. space c ≡ true) before
      → drop_spaces space (before ++ cs) ≡ drop_spaces space cs
  unfolding drop_spaces
  drop_spaces-append [] cs h = refl
  drop_spaces-append (b ∷ bs) cs h = rw (h.0) (drop_spaces-append bs cs h.1)

  drop_spaces_end_of_spaces :
      (after : List ℕ) → All (λ c. space c ≡ true) after → drop_spaces_end space after ≡ []
  unfolding drop_spaces_end
  drop_spaces_end_of_spaces [] h = refl
  drop_spaces_end_of_spaces (a ∷ as') h = rw (drop_spaces_end_of_spaces as' h.1, h.0) refl

  pub drop_spaces_end-append :
      (cs after : List ℕ)
      → All (λ c. space c ≡ false) cs
      → All (λ c. space c ≡ true) after
      → drop_spaces_end space (cs ++ after) ≡ cs
  unfolding drop_spaces_end
  drop_spaces_end-append [] after h k = drop_spaces_end_of_spaces after k
  drop_spaces_end-append (c ∷ cs) after h k =
      ap (unless_space (space c) c) (drop_spaces_end-append cs after h.1 k)
      ∙ not_space (space c) c cs h.0
    where
      not_space : (b : Bool) (d : ℕ) (ds : List ℕ) → b ≡ false → unless_space b d ds ≡ d ∷ ds
      not_space true d ds e = absurd (cc)
      not_space false d [] e = refl
      not_space false d (x ∷ xs) e = refl

  drop_spaces_start :
      (cs after : List ℕ)
      → All (λ c. space c ≡ false) cs
      → cs ≢ []
      → drop_spaces space (cs ++ after) ≡ cs ++ after
  unfolding drop_spaces
  drop_spaces_start [] after h n = absurd (n refl)
  drop_spaces_start (c ∷ cs) after h n = rw (h.0) refl

  -- A text with no space in it is what is left of it between spaces.
  pub trim_space-between :
      (before cs after : List ℕ)
      → All (λ c. space c ≡ true) before
      → All (λ c. space c ≡ false) cs
      → All (λ c. space c ≡ true) after
      → cs ≢ []
      → trim_space space (before ++ (cs ++ after)) ≡ cs
  unfolding trim_space
  trim_space-between before cs after hb h ha n =
      ap (drop_spaces_end space)
        (drop_spaces-append before (cs ++ after) hb ∙ drop_spaces_start cs after h n)
      ∙ drop_spaces_end-append cs after h ha

pub remove_dashes-append :
    (xs ys : List ℕ)
    → All (λ c. (c == b'-') ≡ false) xs
    → remove_dashes (xs ++ ys) ≡ xs ++ remove_dashes ys
unfolding remove_dashes
remove_dashes-append [] ys h = refl
remove_dashes-append (x ∷ xs) ys h = rw (h.0) (ap (λ zs. x ∷ zs) (remove_dashes-append xs ys h.1))

pub take-append-drop : (n : ℕ) (xs : List ℕ) → take n xs ++ drop n xs ≡ xs
take-append-drop zero xs = refl
take-append-drop (suc n) [] = refl
take-append-drop (suc n) (x ∷ xs) = ap (λ zs. x ∷ zs) (take-append-drop n xs)

pub All-take {κ} : (P : ℕ → Type κ) (n : ℕ) (xs : List ℕ) → All P xs → All P (take n xs)
All-take P zero xs h = tt
All-take P (suc n) [] h = tt
All-take P (suc n) (x ∷ xs) h = (h.0, All-take P n xs h.1)

pub All-drop {κ} : (P : ℕ → Type κ) (n : ℕ) (xs : List ℕ) → All P xs → All P (drop n xs)
All-drop P zero xs h = h
All-drop P (suc n) [] h = tt
All-drop P (suc n) (x ∷ xs) h = All-drop P n xs h.1

pub All-append {κ} : (P : ℕ → Type κ) (xs ys : List ℕ) → All P xs → All P ys → All P (xs ++ ys)
All-append P [] ys h k = k
All-append P (x ∷ xs) ys h k = (h.0, All-append P xs ys h.1 k)

pub byte_len_ones :
    (width : ℕ → ℕ) (xs : List ℕ) → All (λ c. width c ≡ 1) xs → byte_len width xs ≡ length xs
byte_len_ones width [] h = refl
byte_len_ones width (x ∷ xs) h = omega (arith, h.0, byte_len_ones width xs h.1)

pub map-same : (f : ℕ → ℕ) (xs : List ℕ) → All (λ c. f c ≡ c) xs → map f xs ≡ xs
map-same f [] h = refl
map-same f (x ∷ xs) h = ap (λ y. y ∷ map f xs) (h.0) ∙ ap (λ zs. x ∷ zs) (map-same f xs h.1)
