-- ===== src/Pairing/RoundTrip.antt =====
-- internal/pairing/service.go: a code that was offered is accepted as it was generated.
use aisummoner.Prelude.{
  ℕ, ◌==◌, ◌≡◌, ◌≢◌, refl, ap, ◌∙◌, sym, true, false, some, List, [], ◌∷◌, ◌++◌, map, length, take,
  All, arith, inl, inr, Bool-cases,
}
use mathlib.Core.Path.{subst}
use mathlib.Core.List.{append-nil}
use aisummoner.Prelude.Counting.{All-map}
use aisummoner.Pairing.{
  Unicode, in_alphabet, every, trim_space, remove_dashes, code_length, checked_code, normalize,
  code_rune, generate_code, drop, shown_code,
}
use aisummoner.Pairing.Codes.{
  in_alphabet-code_rune, every-All, All-every, map-code_rune, trim_space-between,
  remove_dashes-append, take-append-drop, All-take, All-drop, All-append, byte_len_ones, map-same,
}

abbrev pub IsCode : List ℕ → Type 0
IsCode code = (length code ≡ code_length) × All (λ c. in_alphabet c ≡ true) code

module _ (u : Unicode) where
  open u use {is_space, to_upper, rune_len}

  not_space : (c : ℕ) → in_alphabet c ≡ true → is_space c ≡ false
  not_space c h = ground (arith, in_alphabet-code_rune c h, u.ascii_space c)

  not_dash : (c : ℕ) → in_alphabet c ≡ true → (c == b'-') ≡ false
  not_dash c h = ground (arith, in_alphabet-code_rune c h)

  is_upper : (c : ℕ) → in_alphabet c ≡ true → to_upper c ≡ c
  is_upper c h = ground (arith, in_alphabet-code_rune c h, u.upper_other c)

  one_byte : (c : ℕ) → in_alphabet c ≡ true → rune_len c ≡ 1
  one_byte c h = ground (arith, in_alphabet-code_rune c h, u.ascii_len c)

  checked_code_lem : (code : List ℕ) → IsCode code → checked_code rune_len code ≡ some code
  unfolding checked_code
  checked_code_lem code (n, h) = ground (
    arith,
    n,
    byte_len_ones rune_len code (All-map code one_byte h),
    All-every in_alphabet code h,
  )

  upper_code : (code : List ℕ) → IsCode code → map to_upper code ≡ code
  upper_code code (n, h) = map-same to_upper code (All-map code is_upper h)

  shown_code_spaces :
      (code : List ℕ) → IsCode code → All (λ c. is_space c ≡ false) (shown_code code)
  unfolding shown_code
  shown_code_spaces code (n, h) =
      All-append (λ c. is_space c ≡ false) (take 4 code) (b'-' ∷ drop 4 code)
        (All-take (λ c. is_space c ≡ false) 4 code (All-map code not_space h))
        (
          u.ascii_space b'-' (omega arith) (omega arith),
          All-drop (λ c. is_space c ≡ false) 4 code (All-map code not_space h),
        )

  remove_dashes_code :
      (code : List ℕ) → All (λ c. in_alphabet c ≡ true) code → remove_dashes code ≡ code
  unfolding remove_dashes
  remove_dashes_code [] h = refl
  remove_dashes_code (c ∷ cs) h =
      rw (not_dash c h.0) (ap (λ zs. c ∷ zs) (remove_dashes_code cs h.1))

  remove_dashes_dash :
      (code : List ℕ) → All (λ c. in_alphabet c ≡ true) code → remove_dashes (b'-' ∷ code) ≡ code
  unfolding remove_dashes
  remove_dashes_dash code h = remove_dashes_code code h

  remove_dashes-shown_code : (code : List ℕ) → IsCode code → remove_dashes (shown_code code) ≡ code
  unfolding shown_code
  remove_dashes-shown_code code (n, h) =
      remove_dashes-append (take 4 code) (b'-' ∷ drop 4 code)
        (All-take (λ c. (c == b'-') ≡ false) 4 code (All-map code not_dash h))
      ∙ ap (λ zs. take 4 code ++ zs) after_dash
      ∙ take-append-drop 4 code
    where
      after_dash : remove_dashes (b'-' ∷ drop 4 code) ≡ drop 4 code
      after_dash = remove_dashes_dash (drop 4 code) (All-drop (λ c. in_alphabet c ≡ true) 4 code h)

  shown_code-ne-nil : (code : List ℕ) → shown_code code ≢ []
  unfolding shown_code
  shown_code-ne-nil [] e = cc e
  shown_code-ne-nil (c ∷ cs) e = cc e

  normalize-shown_code :
      (code before after : List ℕ)
      → IsCode code
      → All (λ c. is_space c ≡ true) before
      → All (λ c. is_space c ≡ true) after
      → normalize u (before ++ (shown_code code ++ after)) ≡ some code
  unfolding normalize
  normalize-shown_code code before after c hb ha =
      ap (λ cs. checked_code rune_len (map to_upper (remove_dashes cs)))
        (trim_space-between is_space before (shown_code code) after hb (shown_code_spaces code c) ha
          (shown_code-ne-nil code))
      ∙ ap (λ cs. checked_code rune_len (map to_upper cs)) (remove_dashes-shown_code code c)
      ∙ ap (checked_code rune_len) (upper_code code c)
      ∙ checked_code_lem code c

  -- Whatever eight random bytes a code is made of, the code as it is shown, with a dash and with spaces
  -- around it, is normalised to the code that was generated.
  pub normalize-generate_code :
      (random before after : List ℕ)
      → length random ≡ code_length
      → All (λ c. is_space c ≡ true) before
      → All (λ c. is_space c ≡ true) after
      → (code : List ℕ) × (generate_code (some random) ≡ some code)
        × (normalize u (before ++ (shown_code code ++ after)) ≡ some code)
  unfolding generate_code
  normalize-generate_code random before after n hb ha = (
    map code_rune random,
    refl,
    normalize-shown_code (map code_rune random) before after
        ((map-code_rune random).0 ∙ n, (map-code_rune random).1) hb ha,
  )

  checked_code_sound :
      (cs code : List ℕ) → checked_code rune_len cs ≡ some code → (cs ≡ code) × IsCode code
  unfolding checked_code
  checked_code_sound cs code e = elim (Bool-cases (every in_alphabet cs)) [
    | inl good ↦
        let same : cs ≡ code = ground (arith, e) in
        let alphabet : All (λ c. in_alphabet c ≡ true) cs = every-All in_alphabet cs good in
        (
          same,
          subst IsCode same (
            ground (arith, e, byte_len_ones rune_len cs (All-map cs one_byte alphabet)),
            alphabet,
          ),
        )
    | inr bad ↦ absurd (ground (arith, e, bad))
  ]

  trim_space_code : (code : List ℕ) → IsCode code → trim_space is_space code ≡ code
  trim_space_code code c =
      ap (trim_space is_space) (sym (append-nil code))
      ∙ trim_space-between is_space [] code [] tt (All-map code not_space (c.1)) tt
          (λ e. absurd (ground (arith, c.0, ap length e)))

  -- What a text is normalised to has eight runes of the alphabet, and is normalised to itself.
  pub normalize_sound :
      (text code : List ℕ)
      → normalize u text ≡ some code
      → IsCode code × (normalize u code ≡ some code)
  unfolding normalize
  normalize_sound text code e =
      let is_code : IsCode code = (checked_code_sound _ code e).1 in
      (
        is_code,
        ap (λ cs. checked_code rune_len (map to_upper (remove_dashes cs)))
              (trim_space_code code is_code)
            ∙ ap (λ cs. checked_code rune_len (map to_upper cs))
                (remove_dashes_code code (is_code.1))
            ∙ ap (checked_code rune_len) (upper_code code is_code)
            ∙ checked_code_lem code is_code,
      )
