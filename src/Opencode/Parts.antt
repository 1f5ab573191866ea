-- ===== src/Opencode/Parts.antt =====
-- internal/opencode/sse.go: the parts of a tracker, and what the sink was told of each.
use aisummoner.Prelude.{
  ℕ, suc, ◌≤◌, ◌==◌, ◌≡◌, ◌≢◌, ◌&&◌, ◌⊎◌, refl, ap, sym, ◌∙◌, Bool, true, false, ◌||◌, Option, none,
  some, List, [], ◌∷◌, ◌++◌, if◌then◌else◌, first, any, update, length, leb, is_some, arith, inl,
  inr, Bool-cases, any-first, All, length-append,
}
use mathlib.Core.Path.{subst}
use mathlib.Core.List.{append-nil, append_assoc}
use aisummoner.Store.Data.{RowId, Bytes}
use aisummoner.Opencode.Tracker.{
  PartKind, text_part, PartKey, Origin, from_part, named, unnamed, message_part, compatibility,
  not_ours, TextPart, Emission, PendingText, MessageRow, Tracker, Outcome, key_eq, has_part_key,
  text_of, part_of, get_part, set_text, call_sink, maximum_text_parts, kind_agrees, or_else,
}

-- The deltas that the sink was given for a part, in their order.
abbrev pub is_for : PartKey → Origin → Bool
is_for k (from_part j) = key_eq j k
is_for k (named j) = false
is_for k unnamed = false

abbrev pub is_part : Origin → Bool
is_part (from_part k) = true
is_part _ = false

abbrev pub is_unnamed : Origin → Bool
is_unnamed unnamed = true
is_unnamed _ = false

-- A part's text of a message that comes after an unnamed text of it.
abbrev pub breaks : Emission → Emission → Bool
breaks x y = is_unnamed (x.origin) && is_part (y.origin) && x.message == y.message

abbrev pub Ordered : List Emission → Type 0
Ordered [] = Unit {0}
Ordered (x ∷ xs) = (any (breaks x) xs ≡ false) × Ordered xs

-- The family that a call of the sink had: a part's text is of the message parts, a named text of the
-- compatibility events unless all of its message is, and an unnamed one of a message that is.
abbrev pub Owns : Tracker → Emission → Type 0
Owns t e = elim (e.origin) [
  | from_part k ↦ t.families (k.message) (k.part) ≡ some message_part
  | named k ↦
      (t.families (k.message) (k.part) ≡ some compatibility)
      ⊎ (t.fallback_family (e.message) ≡ some compatibility)
  | unnamed ↦ t.fallback_family (e.message) ≡ some compatibility
]

abbrev pub said : PartKey → List Emission → Bytes
said k [] = []
said k (e ∷ es) = (if is_for k (e.origin) then e.delta else []) ++ said k es

said-append :
    (k : PartKey) (es : List Emission) (e : Emission)
    → said k (es ++ e ∷ []) ≡ said k es ++ (if is_for k (e.origin) then e.delta else [])
said-append k [] e = append-nil _
said-append k (x ∷ es) e =
    ap (λ zs. (if is_for k (x.origin) then x.delta else []) ++ zs) (said-append k es e)
    ∙ sym (append_assoc (if is_for k (x.origin) then x.delta else []) (said k es) _)

unfoldable pub has_part : PartKey → List TextPart → Bool
has_part k ps = any (has_part_key k) ps

text_of-set_other :
    (k j : PartKey) (text : Bytes) (ps : List TextPart)
    → key_eq k j ≡ false
    → text_of j (update (has_part_key k) (λ p. record p { text = text }) ps) ≡ text_of j ps
unfolding update first
text_of-set_other k j text [] h = refl
text_of-set_other k j text (p ∷ ps) h = ground (arith, h, text_of-set_other k j text ps h)

text_of-set :
    (k j : PartKey) (text : Bytes) (ps : List TextPart)
    → has_part k ps ≡ true
    → text_of j (update (has_part_key k) (λ p. record p { text = text }) ps)
      ≡ (if key_eq k j then text else text_of j ps)
unfolding has_part any update first
text_of-set k j text [] h = absurd (cc)
text_of-set k j text (p ∷ ps) h =
    ground (arith, h, text_of-set k j text ps, text_of-set_other k j text ps)

text_of-add :
    (k j : PartKey) (kind : PartKind) (ps : List TextPart)
    → text_of j (ps ++ record { key = k; text = []; kind = kind } ∷ []) ≡ text_of j ps
unfolding first
text_of-add k j kind [] = ground arith
text_of-add k j kind (p ∷ ps) = ground (arith, text_of-add k j kind ps)

-- The deltas of each part are its text, every call of the sink is for a message of this turn and had its family,
-- and no part's text follows an unnamed text of its message.
pub record SaysParts (t : Tracker) : Type 0 where
  pub told : (k : PartKey) → said k (t.out) ≡ text_of k (t.parts)
  pub ours : All (λ e. t.current_assistants (e.message) ≡ true) (t.out)
  pub owned : All (Owns t) (t.out)
  pub ordered : Ordered (t.out)
  pub parts_bound : length (t.parts) ≤ maximum_text_parts

length-update {ℓ} :
    {A : Type ℓ} (q : A → Bool) (f : A → A) (xs : List A) → length (update q f xs) ≡ length xs
unfolding update
length-update q f [] = refl
length-update q f (x ∷ xs) = ap suc (length-update q f xs)

All-snoc {κ} :
    (P : Emission → Type κ) (es : List Emission) (e : Emission)
    → All P es
    → P e
    → All P (es ++ e ∷ [])
All-snoc P [] e h k = (k, tt)
All-snoc P (x ∷ es) e h k = (h.0, All-snoc P es e h.1 k)

any-snoc :
    (p : Emission → Bool) (es : List Emission) (e : Emission)
    → any p (es ++ e ∷ []) ≡ (any p es || p e)
unfolding any
any-snoc p [] e = ground arith
any-snoc p (x ∷ es) e = ground (arith, any-snoc p es e)

Ordered-snoc :
    (es : List Emission) (e : Emission)
    → Ordered es
    → All (λ x. breaks x e ≡ false) es
    → Ordered (es ++ e ∷ [])
unfolding any
Ordered-snoc [] e o h = (refl, tt)
Ordered-snoc (x ∷ es) e o h =
    (ground (arith, any-snoc (breaks x) es e, o.0, h.0), Ordered-snoc es e o.1 h.1)

after_other :
    (e : Emission)
    → is_part (e.origin) ≡ false
    → (es : List Emission) → All (λ x. breaks x e ≡ false) es
after_other e other [] = tt
after_other e other (x ∷ es) = (ground (arith, other), after_other e other es)

-- A message with an unnamed text has fallen back.
not_after :
    (t : Tracker) (x e : Emission) (o : Origin)
    → x.origin ≡ o
    → Owns t x
    → t.fallback_family (e.message) ≢ some compatibility
    → breaks x e ≡ false
not_after t x e (from_part k) is h guard = rw is refl
not_after t x e (named k) is h guard = rw is refl
not_after t x e unnamed is h guard = elim (Bool-cases (x.message == e.message)) [
  | inl same ↦
      let at : x.message ≡ e.message = ground (arith, same) in
      absurd (guard (ap (t.fallback_family) (sym at) ∙ owned_unnamed x is h))
  | inr other ↦ ground (arith, other)
]
  where
    owned_unnamed :
        (y : Emission)
        → y.origin ≡ unnamed
        → Owns t y
        → t.fallback_family (y.message) ≡ some compatibility
    owned_unnamed y is h = subst (λ o. Owns t (record y { origin = o })) is h

after_owned :
    (t : Tracker) (e : Emission) (es : List Emission)
    → All (Owns t) es
    → t.fallback_family (e.message) ≢ some compatibility
    → All (λ x. breaks x e ≡ false) es
after_owned t e [] h guard = tt
after_owned t e (x ∷ es) h guard =
    (not_after t x e (x.origin) refl h.0 guard, after_owned t e es h.1 guard)

text_of-same :
    (k j : PartKey) (ps : List TextPart) → key_eq k j ≡ true → text_of j ps ≡ text_of k ps
unfolding first
text_of-same k j [] h = refl
text_of-same k j (p ∷ ps) h = ground (arith, h, text_of-same k j ps h)

said_for :
    (k j : PartKey) (e : Emission)
    → e.origin ≡ from_part k
    → (if is_for j (e.origin) then e.delta else []) ≡ (if key_eq k j then e.delta else [])
said_for k j e ep = ap (λ o. if is_for j o then e.delta else []) ep

said_none :
    (j : PartKey) (e : Emission)
    → is_for j (e.origin) ≡ false
    → (if is_for j (e.origin) then e.delta else []) ≡ []
said_none j e ep = rw ep refl

module _ (accepts : List Emission → Emission → Bool) where
  pub call_sink_part :
      (k : PartKey) (e : Emission) (text : Bytes) (t : Tracker)
      → SaysParts t
      → has_part k (t.parts) ≡ true
      → t.current_assistants (k.message) ≡ true
      → e.origin ≡ from_part k
      → t.families (k.message) (k.part) ≡ some message_part
      → t.fallback_family (k.message) ≢ some compatibility
      → e.message ≡ k.message
      → text ≡ text_of k (t.parts) ++ e.delta
      → SaysParts (call_sink accepts e (set_text k text t)).1
  unfolding call_sink set_text
  call_sink_part k e text t s there cur ep family guard em grown = record {
    told = told_step;
    ours =
        All-snoc (λ x. t.current_assistants (x.message) ≡ true) (t.out) e (s.ours)
          (ap (t.current_assistants) em ∙ cur);
    owned =
        All-snoc (Owns t) (t.out) e (s.owned)
          (subst (λ o. Owns t (record e { origin = o })) (sym ep) family);
    ordered = Ordered-snoc (t.out) e (s.ordered) (
        after_owned t e (t.out) (s.owned)
          (subst (λ m. t.fallback_family m ≢ some compatibility) (sym em) guard));
    parts_bound = omega (
      arith,
      s.parts_bound,
      length-update (has_part_key k) (λ p. record p { text = text }) (t.parts),
    );
  }
    where
      told_step :
          (j : PartKey)
          → said j (t.out ++ e ∷ [])
            ≡ text_of j (update (has_part_key k) (λ p. record p { text = text }) (t.parts))
      told_step j = elim (Bool-cases (key_eq k j)) [
        | inl same ↦
            said-append j (t.out) e
            ∙ ap (λ zs. said j (t.out) ++ zs) (said_for k j e ep ∙ rw same refl)
            ∙ ap (λ zs. zs ++ e.delta) (s.told j ∙ text_of-same k j (t.parts) same)
            ∙ sym grown
            ∙ sym (text_of-set k j text (t.parts) there ∙ rw same refl)
        | inr other ↦
            said-append j (t.out) e
            ∙ ap (λ zs. said j (t.out) ++ zs) (said_for k j e ep ∙ rw other refl)
            ∙ append-nil _
            ∙ s.told j
            ∙ sym (text_of-set k j text (t.parts) there ∙ rw other refl)
      ]

  pub call_sink_other :
      (e : Emission) (t : Tracker)
      → SaysParts t
      → t.current_assistants (e.message) ≡ true
      → ((j : PartKey) → is_for j (e.origin) ≡ false)
      → is_part (e.origin) ≡ false
      → Owns t e
      → SaysParts (call_sink accepts e t).1
  unfolding call_sink
  call_sink_other e t s cur ep other family = record {
    told = λ j.
        said-append j (t.out) e
        ∙ ap (λ zs. said j (t.out) ++ zs) (said_none j e (ep j))
        ∙ append-nil _
        ∙ s.told j;
    ours = All-snoc (λ x. t.current_assistants (x.message) ≡ true) (t.out) e (s.ours) cur;
    owned = All-snoc (Owns t) (t.out) e (s.owned) family;
    ordered = Ordered-snoc (t.out) e (s.ordered) (after_other e other (t.out));
    parts_bound = s.parts_bound;
  }

-- The rule for a test between two outcomes.
pub either {κ} :
    (P : Outcome → Type κ) (b : Bool) (x y : Outcome)
    → (b ≡ true → P x)
    → (b ≡ false → P y)
    → P (if b then x else y)
either P true x y f g = f refl
either P false x y f g = g refl

-- What the tracker keeps of events, messages and pending texts, which the emission of text leaves alone.
pub record Books : Type 0 where
  pub pending : List PendingText
  pub pending_records : ℕ
  pub pending_bytes : ℕ
  pub seen_ids : List RowId
  pub messages : List MessageRow
  pub prompt_message_id : RowId
  pub current_assistants : RowId → Bool

abbrev pub books_of : Tracker → Books
books_of t = record {
  pending = t.pending;
  pending_records = t.pending_records;
  pending_bytes = t.pending_bytes;
  seen_ids = t.seen_ids;
  messages = t.messages;
  prompt_message_id = t.prompt_message_id;
  current_assistants = t.current_assistants;
}

-- What `getPart` leaves: the texts as they were, and the part in the map when there is no error.
abbrev pub PartSays : PartKey → Tracker → Outcome → Type 0
PartSays k t o =
    SaysParts o.1
    × (o.0 ≡ none → has_part k o.1.parts ≡ true)
    × (o.1.current_assistants ≡ t.current_assistants)
    × (books_of o.1 ≡ books_of t)
    × (not_ours k o.1 ≡ not_ours k t)

has_part-add :
    (k : PartKey) (kind : PartKind) (ps : List TextPart)
    → has_part k (ps ++ record { key = k; text = []; kind = kind } ∷ []) ≡ true
unfolding has_part any
has_part-add k kind [] = ground arith
has_part-add k kind (p ∷ ps) = ground (arith, has_part-add k kind ps)

part_of_says :
    (k : PartKey) (kind : Option PartKind) (o : Option TextPart) (t : Tracker)
    → SaysParts t
    → first (has_part_key k) (t.parts) ≡ o
    → PartSays k t (part_of k kind o t)
unfolding has_part
part_of_says k kind (some p) t s e =
    either (PartSays k t) (kind_agrees kind (p.kind)) _ _
      (λ same. (s, λ x. any-first (has_part_key k) (t.parts) ∙ ap is_some e, refl, refl, refl))
      (λ other. (s, λ x. absurd (cc x), refl, refl, refl))
part_of_says k kind none t s e =
    either (PartSays k t) (leb maximum_text_parts (length (t.parts))) _ _
      (λ full. (s, λ x. absurd (cc x), refl, refl, refl))
      (λ room. (
        record {
          told = λ j. s.told j ∙ sym (text_of-add k j (or_else kind text_part) (t.parts));
          ours = s.ours;
          owned = s.owned;
          ordered = s.ordered;
          parts_bound = ground (
            arith,
            s.parts_bound,
            room,
            length-append (t.parts)
                (record { key = k; text = []; kind = or_else kind text_part } ∷ []),
          );
        },
        λ x. has_part-add k (or_else kind text_part) (t.parts),
        refl,
        refl,
        refl,
      ))

pub get_part_says :
    (k : PartKey) (kind : Option PartKind) (t : Tracker)
    → SaysParts t
    → PartSays k t (get_part k kind t)
unfolding get_part
get_part_says k kind t s =
    either (PartSays k t) (k.message == 0 || k.part == 0) _ _
      (λ empty. (s, λ x. absurd (cc x), refl, refl, refl))
      (λ named. part_of_says k kind (first (has_part_key k) (t.parts)) t s refl)
