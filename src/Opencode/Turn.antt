-- ===== src/Opencode/Turn.antt =====
-- internal/opencode/sse.go: the messages of this turn are the assistant's answers to the prompt.
use aisummoner.Prelude.{
  ◌==◌, ◌≡◌, ◌≢◌, refl, sym, ap, ◌∙◌, true, false, not, ◌&&◌, some, List, [], ◌∷◌, first, delete,
  arith, inl, inr, Bool-cases, if◌then◌else◌,
}
use aisummoner.Prelude.Keyed.{has_key}
use aisummoner.Store.Data.{RowId}
use aisummoner.Agent.Registry.{put}
use aisummoner.Opencode.Tracker.{Role, assistant, user, system, MessageRow, Tracker}
use aisummoner.Opencode.Parts.{Books, books_of}
use aisummoner.Opencode.Events.{has_changed, is_role, message_row, note_prompt}

-- A message of this turn is known as an assistant's answer to the prompt, which has an identifier.
abbrev pub IsTurn : Books → Type 0
IsTurn b =
    (m : RowId)
    → b.current_assistants m ≡ true
    → (b.prompt_message_id ≢ 0)
      × (first (has_key MessageRow.id m) (b.messages)
          ≡ some (record { id = m; role = assistant; parent = b.prompt_message_id }))

first-delete_other :
    (m n : RowId) (rows : List MessageRow)
    → (n == m) ≡ false
    → first (has_key MessageRow.id m) (delete (has_key MessageRow.id n) rows)
      ≡ first (has_key MessageRow.id m) rows
unfolding first delete
first-delete_other m n [] other = refl
first-delete_other m n (x ∷ xs) other = ground (arith, other, first-delete_other m n xs other)

-- The row of another message is found as before.
first-put_other :
    (m : RowId) (row : MessageRow) (rows : List MessageRow)
    → (row.id == m) ≡ false
    → first (has_key MessageRow.id m) (put MessageRow.id row rows)
      ≡ first (has_key MessageRow.id m) rows
unfolding put first
first-put_other m row rows other = rw other (first-delete_other m (row.id) rows other)

first-put :
    (m : RowId) (row : MessageRow) (rows : List MessageRow)
    → (row.id == m) ≡ true
    → first (has_key MessageRow.id m) (put MessageRow.id row rows) ≡ some row
unfolding put first
first-put m row rows same = rw same refl

same_role : (r : Role) → is_role assistant r ≡ true → r ≡ assistant
same_role assistant e = refl
same_role user e = absurd (cc e)
same_role system e = absurd (cc e)

abbrev pub listed : RowId → Role → RowId → Tracker → Tracker
listed m role parent t = record t {
  messages = put MessageRow.id (record { id = m; role = role; parent = parent }) (t.messages);
}

abbrev row : RowId → Role → RowId → MessageRow
row m role parent = record { id = m; role = role; parent = parent }

-- A message of the turn keeps its role and its parent.
pub listed-IsTurn :
    (m : RowId) (role : Role) (parent : RowId) (t : Tracker)
    → IsTurn (books_of t)
    → has_changed (message_row m t) role parent ≡ false
    → IsTurn (books_of (listed m role parent t))
listed-IsTurn m role parent t turn same i cur = elim (Bool-cases (m == i)) [
  | inl here ↦
      let at : m ≡ i = ground (arith, here) in
      let (prompted, known) = turn i cur in
      let kept : has_changed (some (row i assistant (t.prompt_message_id))) role parent ≡ false =
        ap (λ o. has_changed o role parent) (sym known)
        ∙ ap (λ j. has_changed (message_row j t) role parent) (sym at)
        ∙ same in
      let as_before : role ≡ assistant = same_role role (ground (arith, kept)) in
      let answer : parent ≡ t.prompt_message_id = ground (arith, kept) in
      (
        prompted,
        first-put i (row m role parent) (t.messages) here
            ∙ ap (λ j. some (row j role parent)) at
            ∙ ap (λ r. some (row i r parent)) as_before
            ∙ ap (λ j. some (row i assistant j)) answer,
      )
  | inr other ↦
      ((turn i cur).0, first-put_other i (row m role parent) (t.messages) other ∙ (turn i cur).1)
]

-- The prompt gets an identifier only when it has none, and then no message is of the turn.
pub note_prompt-IsTurn :
    (m : RowId) (t : Tracker) → IsTurn (books_of t) → IsTurn (books_of (note_prompt m t))
note_prompt-IsTurn m t turn i cur = elim (Bool-cases (t.prompt_message_id == 0)) [
  | inl empty ↦ absurd ((turn i cur).0 (ground (arith, empty)))
  | inr named ↦ rw named (turn i cur)
]

-- A new message of the turn answers the prompt.
pub answer-IsTurn :
    (m parent : RowId) (t : Tracker)
    → IsTurn (books_of (listed m assistant parent t))
    → (not (t.prompt_message_id == 0) && parent == t.prompt_message_id) ≡ true
    → IsTurn (record (books_of (listed m assistant parent t)) {
      current_assistants = λ i. if i == m then true else t.current_assistants i;
    })
answer-IsTurn m parent t turn answers i cur = elim (Bool-cases (i == m)) [
  | inl here ↦
      let at : m ≡ i = ground (arith, here) in
      let same : (m == i) ≡ true = ground (arith, here) in
      let answer : parent ≡ t.prompt_message_id = ground (arith, answers) in
      (
        (λ z. absurd (ground (arith, answers, z))),
        first-put i (row m assistant parent) (t.messages) same
            ∙ ap (λ j. some (row j assistant parent)) at
            ∙ ap (λ j. some (row i assistant j)) answer,
      )
  | inr other ↦ turn i (rw other at cur)
]
