-- ===== src/Opencode/Said.antt =====
-- internal/opencode/sse.go: what the sink is told of a part is the text that the tracker has of it.
use aisummoner.Prelude.{
  ◌==◌, ◌≡◌, refl, sym, ap, inl, inr, false, Bool-cases, ◌∙◌, Bool, true, Option, none, some, List,
  [], ◌∷◌, ◌++◌, arith,
}
use aisummoner.Prelude.Counting.{All-map}
use aisummoner.Store.Data.{RowId, Bytes}
use aisummoner.Opencode.Parts.{
  has_part, is_for, is_part, Owns, SaysParts, either, get_part_says, call_sink_part,
  call_sink_other, Books, books_of,
}
use aisummoner.Opencode.Tracker.{
  Growth, Origin, from_part, named, unnamed, key_eq, or_else, Family, PartKind, text_part, PartKey,
  Emission, Tracker, Outcome, text_of, kind_of, get_part, set_text, set_family, record_first_family,
  note_activity, call_sink, compatibility_text, fall_back, emit_unnamed, emit_named,
  emit_compatibility, extend_part, not_ours, with_part, emit_delta, grow, growth, growth_of,
  text_after, nothing_new, changed, grows_by, emit_full, message_part, compatibility, taken_from,
}

text_after_sound : (cs ds r : Bytes) → text_after cs ds ≡ some r → cs ≡ ds ++ r
unfolding text_after
text_after_sound cs [] r e = cc e
text_after_sound [] (d ∷ ds) r e = absurd (cc e)
text_after_sound (c ∷ cs) (d ∷ ds) r e = ground (arith, e, text_after_sound cs ds r)

growth_of_sound :
    (a b : Option Bytes) (delta : Bytes) → growth_of a b ≡ grows_by delta → b ≡ some delta
growth_of_sound (some r) b delta e = absurd (cc e)
growth_of_sound none none delta e = absurd (cc e)
growth_of_sound none (some []) delta e = absurd (cc e)
growth_of_sound none (some (c ∷ cs)) delta e = cc e

-- The full text of a part is its text before with the delta after it.
growth_sound : (text old delta : Bytes) → growth text old ≡ grows_by delta → text ≡ old ++ delta
unfolding growth
growth_sound text old delta e =
    text_after_sound text old delta
      (growth_of_sound (text_after old text) (text_after text old) delta e)

same_families :
    (t : Tracker) (j k : PartKey)
    → key_eq j k ≡ true
    → t.families (j.message) (j.part) ≡ t.families (k.message) (k.part)
same_families t j k same =
    let message : j.message ≡ k.message = ground (arith, same) in
    let part : j.part ≡ k.part = ground (arith, same) in
    ap (λ m. t.families m (j.part)) message ∙ ap (t.families (k.message)) part

kept_family :
    (k j : PartKey) (f g : Family) (t : Tracker)
    → taken_from f (t.families (k.message) (k.part)) ≡ false
    → t.families (j.message) (j.part) ≡ some g
    → (set_family k f t).families (j.message) (j.part) ≡ some g
unfolding set_family
kept_family k j f g t free at = elim (Bool-cases (key_eq j k)) [
  | inl same ↦
      rw same (same_family f g (ap (taken_from f) (sym at ∙ same_families t j k same) ∙ free))
  | inr other ↦ rw other at
]
  where
    same_family : (x y : Family) → taken_from x (some y) ≡ false → some x ≡ some y
    same_family message_part message_part e = refl
    same_family compatibility compatibility e = refl
    same_family message_part compatibility e = absurd (cc e)
    same_family compatibility message_part e = absurd (cc e)

-- A family that is noted takes no part from another one.
abbrev OwnsAs : Tracker → RowId → Origin → Type 0
OwnsAs t m o = Owns t (record { message = m; origin = o; kind = text_part; delta = [] })

set_family-OwnsAs :
    (k : PartKey) (f : Family) (t : Tracker) (m : RowId) (o : Origin)
    → taken_from f (t.families (k.message) (k.part)) ≡ false
    → OwnsAs t m o
    → OwnsAs (set_family k f t) m o
unfolding set_family
set_family-OwnsAs k f t m (from_part j) free h = kept_family k j f message_part t free h
set_family-OwnsAs k f t m (named j) free (inl h) = inl (kept_family k j f compatibility t free h)
set_family-OwnsAs k f t m (named j) free (inr h) = inr h
set_family-OwnsAs k f t m unnamed free h = h

set_family-Owns :
    (k : PartKey) (f : Family) (t : Tracker) (e : Emission)
    → taken_from f (t.families (k.message) (k.part)) ≡ false
    → Owns t e
    → Owns (set_family k f t) e
set_family-Owns k f t e free h = set_family-OwnsAs k f t (e.message) (e.origin) free h

-- A fallback that is there stays.
kept_fallback :
    (m j : RowId) (t : Tracker)
    → t.fallback_family j ≡ some compatibility
    → (fall_back m t).fallback_family j ≡ some compatibility
kept_fallback m j t at = elim (Bool-cases (j == m)) [
  | inl same ↦
      let is : j ≡ m = ground (arith, same) in
      rw same (
        ap (λ o. some (or_else o (or_else (t.first_text_family m) compatibility)))
          (ap (t.fallback_family) (sym is) ∙ at))
  | inr other ↦ rw other at
]

fall_back-OwnsAs :
    (m : RowId) (t : Tracker) (n : RowId) (o : Origin) → OwnsAs t n o → OwnsAs (fall_back m t) n o
fall_back-OwnsAs m t n (from_part j) h = h
fall_back-OwnsAs m t n (named j) (inl h) = inl h
fall_back-OwnsAs m t n (named j) (inr h) = inr (kept_fallback m n t h)
fall_back-OwnsAs m t n unnamed h = kept_fallback m n t h

fallen_back :
    (m : RowId) (t : Tracker) → (f : Family) × ((fall_back m t).fallback_family m ≡ some f)
fallen_back m t =
    let same : (m == m) ≡ true = ground arith in
    (or_else (t.fallback_family m) (or_else (t.first_text_family m) compatibility), rw same refl)

family_of :
    (k : PartKey) (f : Family) (t : Tracker)
    → (set_family k f t).families (k.message) (k.part) ≡ some f
unfolding set_family
family_of k f t = let same : key_eq k k ≡ true = ground arith in rw same refl

not_ours_fallback :
    (k : PartKey) (t : Tracker)
    → not_ours k t ≡ false
    → taken_from message_part (t.fallback_family (k.message)) ≡ false
not_ours_fallback k t free = ground (arith, free)

not_taken :
    (o : Option Family) (f : Family)
    → o ≡ some f
    → taken_from compatibility o ≡ false
    → o ≡ some compatibility
not_taken o compatibility e n = e
not_taken o message_part e n = absurd (cc (sym (ap (taken_from compatibility) e) ∙ n))

module _ (b : Books) where
  -- The texts agree, and message `m` is of this turn.
  pub record Emits (m : RowId) (t : Tracker) : Type 0 where
    pub says : SaysParts t
    pub current : t.current_assistants m ≡ true
    pub books : books_of t ≡ b

  -- A family that is noted leaves the texts, when it is not another one's part.
  set_family-Emits :
      (k : PartKey) (f : Family) (t : Tracker)
      → taken_from f (t.families (k.message) (k.part)) ≡ false
      → Emits (k.message) t
      → Emits (k.message) (set_family k f t)
  unfolding set_family
  set_family-Emits k f t free h = record {
    says = record {
      told = h.says.told;
      ours = h.says.ours;
      owned = All-map (t.out) (λ e. set_family-Owns k f t e free) (h.says.owned);
      ordered = h.says.ordered;
      parts_bound = h.says.parts_bound;
    };
    current = h.current;
    books = h.books;
  }

  noted_activity :
      (m : RowId) (f : Family) (t : Tracker) → Emits m t → Emits m (note_activity m f t)
  unfolding record_first_family
  noted_activity m f t h = record {
    says = record {
      told = h.says.told;
      ours = h.says.ours;
      owned = h.says.owned;
      ordered = h.says.ordered;
      parts_bound = h.says.parts_bound;
    };
    current = h.current;
    books = h.books;
  }

  module _ (accepts : List Emission → Emission → Bool) where
    compatibility_text-Emits :
        (m : RowId) (o : Origin) (delta : Bytes) (t : Tracker)
        → Emits m t
        → ((j : PartKey) → is_for j o ≡ false)
        → is_part o ≡ false
        → OwnsAs t m o
        → Emits m (compatibility_text accepts m o delta t).1
    unfolding call_sink record_first_family
    compatibility_text-Emits m o delta t h no_part other owns = record {
      says =
          call_sink_other accepts
            (record { message = m; origin = o; kind = text_part; delta = delta })
            (note_activity m compatibility t) (noted_activity m compatibility t h).says (h.current)
            no_part other owns;
      current = h.current;
      books = h.books;
    }

    emit_unnamed-Emits :
        (m : RowId) (delta : Bytes) (t : Tracker)
        → Emits m t
        → (f : Family) × (t.fallback_family m ≡ some f)
        → Emits m (emit_unnamed accepts m delta t).1
    emit_unnamed-Emits m delta t h (f, fallen) =
        either (λ o. Emits m (o.1)) (taken_from compatibility (t.fallback_family m)) _ _ (λ x. h)
          (λ x.
            compatibility_text-Emits m unnamed delta t h (λ j. refl) refl
              (not_taken (t.fallback_family m) f fallen x))

    emit_named-Emits :
        (k : PartKey) (o : Option Family) (delta : Bytes) (t : Tracker)
        → t.fallback_family (k.message) ≡ o
        → Emits (k.message) t
        → Emits (k.message) (emit_named accepts k o delta t).1
    emit_named-Emits k (some compatibility) delta t e h =
        compatibility_text-Emits (k.message) (named k) delta t h (λ j. refl) refl (inr e)
    emit_named-Emits k (some message_part) delta t e h = h
    emit_named-Emits k none delta t e h =
        either (λ o. Emits (k.message) (o.1))
          (taken_from compatibility (t.families (k.message) (k.part))) _ _ (λ x. h)
          (λ free.
            compatibility_text-Emits (k.message) (named k) delta (set_family k compatibility t)
              (set_family-Emits k compatibility t free h) (λ j. refl) refl
              (inl (family_of k compatibility t)))

    pub emit_compatibility-Emits :
        (m text_id : RowId) (delta : Bytes) (t : Tracker)
        → Emits m t
        → Emits m (emit_compatibility accepts m text_id delta t).1
    unfolding emit_compatibility
    emit_compatibility-Emits m text_id delta t h =
        either (λ o. Emits m (o.1)) (text_id == 0) _ _
          (λ x.
            emit_unnamed-Emits m delta (fall_back m t)
              (record {
                says = record {
                  told = h.says.told;
                  ours = h.says.ours;
                  owned =
                      All-map (t.out) (λ e. fall_back-OwnsAs m t (e.message) (e.origin))
                        (h.says.owned);
                  ordered = h.says.ordered;
                  parts_bound = h.says.parts_bound;
                };
                current = h.current;
                books = h.books;
              })
              (fallen_back m t))
          (λ x.
            emit_named-Emits (record { message = m; part = text_id }) (t.fallback_family m) delta t
              refl h)

    extend_part-Emits :
        (k : PartKey) (text delta : Bytes) (t : Tracker)
        → Emits (k.message) t
        → not_ours k t ≡ false
        → has_part k (t.parts) ≡ true
        → text ≡ text_of k (t.parts) ++ delta
        → Emits (k.message) (extend_part accepts k text delta t).1
    unfolding extend_part call_sink set_text record_first_family set_family
    extend_part-Emits k text delta t h free there grown = record {
      says =
          call_sink_part accepts k
            (record {
              message = k.message;
              origin = from_part k;
              kind = kind_of k (t.parts);
              delta = delta;
            })
            text (note_activity (k.message) message_part (set_family k message_part t))
            (noted_activity (k.message) message_part (set_family k message_part t)
              (set_family-Emits k message_part t (ground (arith, free)) h)).says
            there (h.current) refl (family_of k message_part t)
            (λ e. absurd (cc (ap (taken_from message_part) e, not_ours_fallback k t free))) refl
            grown;
      current = h.current;
      books = h.books;
    }

    pub with_part-Emits :
        (m : RowId) (o : Outcome) (f : Tracker → Outcome)
        → Emits m (o.1)
        → (o.0 ≡ none → Emits m (f (o.1)).1)
        → Emits m (with_part o f).1
    with_part-Emits m (some e, t) f h k = h
    with_part-Emits m (none, t) f h k = k refl

    taken_part :
        (k : PartKey) (kind : Option PartKind) (t : Tracker)
        → Emits (k.message) t
        → Emits (k.message) (get_part k kind t).1
    taken_part k kind t h = record {
      says = (get_part_says k kind t (h.says)).0;
      current = ap (λ c. c (k.message)) (get_part_says k kind t (h.says)).2 ∙ h.current;
      books = (get_part_says k kind t (h.says)).3 ∙ h.books;
    }

    there_part :
        (k : PartKey) (kind : Option PartKind) (t : Tracker)
        → Emits (k.message) t
        → (get_part k kind t).0 ≡ none
        → has_part k ((get_part k kind t).1.parts) ≡ true
    there_part k kind t h = (get_part_says k kind t (h.says)).1

    free_part :
        (k : PartKey) (kind : Option PartKind) (t : Tracker)
        → Emits (k.message) t
        → not_ours k t ≡ false
        → not_ours k (get_part k kind t).1 ≡ false
    free_part k kind t h free = (get_part_says k kind t (h.says)).4 ∙ free

    pub emit_delta-Emits :
        (k : PartKey) (delta : Bytes) (t : Tracker)
        → Emits (k.message) t
        → Emits (k.message) (emit_delta accepts k delta t).1
    unfolding emit_delta
    emit_delta-Emits k delta t h =
        either (λ o. Emits (k.message) (o.1)) (not_ours k t) _ _ (λ x. h)
          (λ free. with_part-Emits (k.message) (get_part k none t) _ (taken_part k none t h) (λ ok.
            extend_part-Emits k (text_of k ((get_part k none t).1.parts) ++ delta) delta
              (get_part k none t).1 (taken_part k none t h) (free_part k none t h free)
              (there_part k none t h ok) refl))

    grow-Emits :
        (k : PartKey) (text : Bytes) (g : Growth) (t : Tracker)
        → Emits (k.message) t
        → not_ours k t ≡ false
        → has_part k (t.parts) ≡ true
        → ((delta : Bytes) → g ≡ grows_by delta → text ≡ text_of k (t.parts) ++ delta)
        → Emits (k.message) (grow accepts k text g t).1
    grow-Emits k text nothing_new t h free there e = h
    grow-Emits k text changed t h free there e = h
    grow-Emits k text (grows_by delta) t h free there e =
        extend_part-Emits k text delta t h free there (e delta refl)

    pub emit_full-Emits :
        (k : PartKey) (kind : PartKind) (text : Bytes) (t : Tracker)
        → Emits (k.message) t
        → Emits (k.message) (emit_full accepts k kind text t).1
    unfolding emit_full
    emit_full-Emits k kind text t h =
        either (λ o. Emits (k.message) (o.1)) (not_ours k t) _ _ (λ x. h)
          (λ free.
            with_part-Emits (k.message) (get_part k (some kind) t) _ (taken_part k (some kind) t h)
              (λ ok.
                grow-Emits k text (growth text (text_of k ((get_part k (some kind) t).1.parts)))
                  (get_part k (some kind) t).1 (taken_part k (some kind) t h)
                  (free_part k (some kind) t h free) (there_part k (some kind) t h ok)
                  (growth_sound text (text_of k ((get_part k (some kind) t).1.parts)))))
