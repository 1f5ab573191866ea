-- ===== src/Pairing.antt =====
-- internal/pairing/service.go: offering and claiming pairing codes.
-- A text is the list of its runes. The packages `unicode` and `unicode/utf8`, of which `strings` makes its
-- tests, are a parameter with what is documented of ASCII. The digest is a parameter, and randomness an argument.
pub mod Codes
pub mod RoundTrip
pub mod Claims
use aisummoner.Prelude.{
  ℕ, zero, suc, ◌+◌, ◌-◌, ◌≤◌, ◌⊎◌, inl, inr, ◌<◌, ◌==◌, ◌≡◌, Bool, true, false, not, ◌&&◌, Option,
  none, some, List, [], ◌∷◌, ◌++◌, if◌then◌else◌, map, length, take, ltb, any,
}
use Prim.Native.Nat.{◌%◌}
use aisummoner.Prelude.Text.{codes}
use aisummoner.Store.Data.{RowId, Time, Bytes, Device, PairingCode}
use aisummoner.Store.Driver.{
  Error, Result, ok, err, World, Exec, ◌>>=◌, ◌>>◌, pure, pairing_invalid,
}
use aisummoner.Store.Pairing.{create_pairing_code, claim_pairing}

pub record Unicode : Type 0 where
  pub is_space : ℕ → Bool
  pub to_upper : ℕ → ℕ
  pub rune_len : ℕ → ℕ
  pub ascii_space : (c : ℕ) → 32 < c → c < 127 → is_space c ≡ false
  pub upper_lower : (c : ℕ) → 96 < c → c < 123 → to_upper c ≡ c - 32
  pub upper_other : (c : ℕ) → c < 97 → to_upper c ≡ c
  pub ascii_len : (c : ℕ) → c < 128 → rune_len c ≡ 1

-- Ten minutes, in nanoseconds.
abbrev pub code_lifetime : Time
code_lifetime = 600000000000

abbrev pub code_length : ℕ
code_length = 8

unfoldable pub code_alphabet : List ℕ
code_alphabet = codes "ABCDEFGHJKLMNPQRSTUVWXYZ23456789"

unfoldable pub drop_spaces : (ℕ → Bool) → List ℕ → List ℕ
drop_spaces space [] = []
drop_spaces space (c ∷ cs) = let rest = drop_spaces space cs in if space c then rest else c ∷ cs

-- A rune goes when it is a space and nothing but spaces follows.
abbrev pub unless_space : Bool → ℕ → List ℕ → List ℕ
unless_space b c [] = if b then [] else c ∷ []
unless_space b c (d ∷ ds) = c ∷ d ∷ ds

unfoldable pub drop_spaces_end : (ℕ → Bool) → List ℕ → List ℕ
drop_spaces_end space [] = []
drop_spaces_end space (c ∷ cs) = unless_space (space c) c (drop_spaces_end space cs)

-- `strings.TrimSpace`.
unfoldable pub trim_space : (ℕ → Bool) → List ℕ → List ℕ
trim_space space cs = drop_spaces_end space (drop_spaces space cs)

-- `strings.ReplaceAll(s, "-", "")`.
unfoldable pub remove_dashes : List ℕ → List ℕ
remove_dashes [] = []
remove_dashes (c ∷ cs) = let rest = remove_dashes cs in if c == b'-' then rest else c ∷ rest

abbrev pub byte_len : (ℕ → ℕ) → List ℕ → ℕ
byte_len width [] = 0
byte_len width (c ∷ cs) = width c + byte_len width cs

unfoldable pub in_alphabet : ℕ → Bool
in_alphabet c = any (λ a. a == c) code_alphabet

unfoldable pub every : (ℕ → Bool) → List ℕ → Bool
every p [] = true
every p (c ∷ cs) = p c && every p cs

unfoldable pub checked_code : (ℕ → ℕ) → List ℕ → Option (List ℕ)
checked_code width cs =
    if byte_len width cs == code_length && every in_alphabet cs then some cs else none

module _ (u : Unicode) where
  open u use {is_space, to_upper, rune_len}

  unfoldable pub normalize : List ℕ → Option (List ℕ)
  normalize code = checked_code rune_len (map to_upper (remove_dashes (trim_space is_space code)))

-- The rune of the alphabet at an index; the code indexes in range.
abbrev pub nth : ℕ → List ℕ → ℕ
nth i [] = 0
nth zero (c ∷ cs) = c
nth (suc i) (c ∷ cs) = nth i cs

-- `int(value) & 31` is the remainder by 32.
unfoldable pub code_rune : ℕ → ℕ
code_rune value = nth (value % 32) code_alphabet

-- `random` is what `io.ReadFull` gives, or `none` for its error.
unfoldable pub generate_code : Option (List ℕ) → Option (List ℕ)
generate_code none = none
generate_code (some random) = some (map code_rune random)

abbrev pub drop : ℕ → List ℕ → List ℕ
drop zero cs = cs
drop (suc n) [] = []
drop (suc n) (c ∷ cs) = drop n cs

-- `code[:4] + "-" + code[4:]`.
unfoldable pub shown_code : List ℕ → List ℕ
shown_code code = take 4 code ++ b'-' ∷ drop 4 code

pub record Offer : Type 0 where
  pub code : List ℕ
  pub expires_at : Time

pub data PairingError : Type 0 where
  invalid_code random_failed : PairingError
  store_error : Error → PairingError

unfoldable pub new_service : Bytes → Option Bytes
new_service secret = if ltb (length secret) 32 then none else some secret

abbrev pub offer_reply : List ℕ → Time → Result (Unit {0}) × World → (PairingError ⊎ Offer) × World
offer_reply code now (ok x, w) =
    (inr (record { code = shown_code code; expires_at = now + code_lifetime }), w)
offer_reply code now (err e, w) = (inl (store_error e), w)

abbrev pub claim_reply : Result Device × World → (PairingError ⊎ Device) × World
claim_reply (ok d, w) = (inr d, w)
claim_reply (err pairing_invalid, w) = (inl invalid_code, w)
claim_reply (err e, w) = (inl (store_error e), w)

module _ (u : Unicode) (digest : List ℕ → Bytes) where
  -- `pairing_id` is what `id.New` gives, or `none` for its error.
  unfoldable pub offer :
      Option (List ℕ) → Option RowId → RowId → Time → World → (PairingError ⊎ Offer) × World
  offer random pairing_id device now w = elim (generate_code random) [
    | none ↦ (inl random_failed, w)
    | some code ↦ elim pairing_id [
      | none ↦ (inl random_failed, w)
      | some i ↦ offer_reply code now (
          create_pairing_code
            (record {
              id = i;
              device_id = device;
              code_digest = digest code;
              expires_at = now + code_lifetime;
              consumed_at = none;
              created_at = now;
            })
            now w)
    ]
  ]

  unfoldable pub claim : RowId → List ℕ → Time → World → (PairingError ⊎ Device) × World
  claim user code now w = elim (normalize u code) [
    | none ↦ (inl invalid_code, w)
    | some normalized ↦ claim_reply (claim_pairing user (digest normalized) now w)
  ]
