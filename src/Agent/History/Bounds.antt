-- ===== src/Agent/History/Bounds.antt =====
-- What `conversation_history` keeps of the transcript.
use mathlib.Core.List.{reverse, reverse-reverse, reverse-cons}
use aisummoner.Prelude.{
  ℕ, suc, ◌≢◌, ◌+◌, ◌≤◌, ◌<◌, ◌≡◌, refl, sym, ap, ◌∙◌, ◌⊎◌, inl, inr, true, false, List, [], ◌∷◌,
  ◌++◌, arith, length, length-append, All, Bool-cases, if◌then◌else◌,
}
use aisummoner.Store.Data.{Role, user, AgentMessage}
use aisummoner.Agent.History.{
  ConversationMessage, is_user, is_dialogue, conversation_message, is_full, collect, from_user,
  conversation_history, max_conversation_history_messages, max_conversation_history_bytes,
}

abbrev pub size : List ConversationMessage → ℕ
size [] = 0
size (m ∷ ms) = length (m.content) + size ms

-- The messages of the user and the assistant, in the order of the transcript.
abbrev pub dialogue : List AgentMessage → List ConversationMessage
dialogue [] = []
dialogue (m ∷ ms) =
    if is_dialogue (m.role) then conversation_message m ∷ dialogue ms else dialogue ms

-- Why no older message was taken: there is none, or the next one is over a limit.
abbrev pub Stops : ℕ → ℕ → List ConversationMessage → Type 0
Stops count total_bytes [] = Unit
Stops count total_bytes (m ∷ ms) =
    (max_conversation_history_messages ≤ count)
    ⊎ (max_conversation_history_bytes < total_bytes + length (m.content))

abbrev CollectFrom : List ConversationMessage → ℕ → ℕ → List ConversationMessage → Type 0
CollectFrom spoken count total_bytes r =
    (count ≤ max_conversation_history_messages
      → count + length r ≤ max_conversation_history_messages)
    × (total_bytes ≤ max_conversation_history_bytes
        → total_bytes + size r ≤ max_conversation_history_bytes)
    × ((older : List ConversationMessage) × (spoken ≡ r ++ older)
        × Stops (count + length r) (total_bytes + size r) older)

abbrev CollectSays : List AgentMessage → ℕ → ℕ → List ConversationMessage → Type 0
CollectSays newest count total_bytes r = CollectFrom (dialogue newest) count total_bytes r

Stops-cong :
    {n m a b : ℕ}
    → n ≡ m
    → a ≡ b
    → (older : List ConversationMessage) → Stops n a older
    → Stops m b older
Stops-cong e f older stops = rw (sym e, sym f) stops

Stops-later :
    (m : ConversationMessage) (n b : ℕ) (ms : List ConversationMessage)
    → Stops n b (m ∷ ms)
    → Stops (n + 0) (b + 0) (m ∷ ms)
Stops-later m n b ms stops = Stops-cong (omega arith) (omega arith) (m ∷ ms) stops

collect_none :
    (count total_bytes : ℕ) → CollectSays [] count total_bytes (collect [] count total_bytes)
unfolding collect
collect_none count total_bytes = (λ h. omega arith, λ h. omega arith, ([], refl, tt))

module _ (m : AgentMessage) (ms : List AgentMessage) (count total_bytes : ℕ) where
  collect_other :
      is_dialogue (m.role) ≡ false
      → collect (m ∷ ms) count total_bytes ≡ collect ms count total_bytes
  unfolding collect
  collect_other other = ground arith

  collect_full :
      is_dialogue (m.role) ≡ true
      → is_full count total_bytes m ≡ true
      → collect (m ∷ ms) count total_bytes ≡ []
  unfolding collect
  collect_full spoken full = ground arith

  collect_room :
      is_dialogue (m.role) ≡ true
      → is_full count total_bytes m ≡ false
      → collect (m ∷ ms) count total_bytes
        ≡ conversation_message m ∷ collect ms (suc count) (total_bytes + length (m.content))
  unfolding collect
  collect_room spoken room = ground arith

  full-Stops :
      is_full count total_bytes m ≡ true
      → (max_conversation_history_messages ≤ count)
        ⊎ (max_conversation_history_bytes < total_bytes + length (m.content))
  full-Stops full = ground arith

  room-fits :
      is_full count total_bytes m ≡ false
      → (count < max_conversation_history_messages)
        × (total_bytes + length (m.content) ≤ max_conversation_history_bytes)
  room-fits room = ground arith

collected :
    (m : AgentMessage) (ms : List AgentMessage) (count total_bytes : ℕ)
    (r : List ConversationMessage)
    → (count < max_conversation_history_messages)
      × (total_bytes + length (m.content) ≤ max_conversation_history_bytes)
    → CollectSays ms (suc count) (total_bytes + length (m.content)) r
    → CollectFrom
        (conversation_message m ∷ dialogue ms)
        count
        total_bytes
        (conversation_message m ∷ r)
collected m ms count total_bytes r (few, small) (counted, sized, (older, is, stops)) = (
  λ h. omega (arith, counted (omega arith)),
  λ h. omega (arith, sized small),
  (
    older,
    ap (λ k. conversation_message m ∷ k) is,
    Stops-cong (omega arith) (omega arith) older stops,
  ),
)

collect_sound :
    (newest : List AgentMessage) (count total_bytes : ℕ)
    → CollectSays newest count total_bytes (collect newest count total_bytes)
collect_sound [] count total_bytes = collect_none count total_bytes
collect_sound (m ∷ ms) count total_bytes = elim (Bool-cases (is_dialogue (m.role))) [
  | inr other ↦
      rw (collect_other m ms count total_bytes other, other) (collect_sound ms count total_bytes)
  | inl spoken ↦ elim (Bool-cases (is_full count total_bytes m)) [
    | inl full ↦
        rw (collect_full m ms count total_bytes spoken full, spoken)
          (
            λ h. omega arith,
            λ h. omega arith,
            (
              conversation_message m ∷ dialogue ms,
              refl,
              Stops-later (conversation_message m) count total_bytes (dialogue ms)
                  (full-Stops m ms count total_bytes full),
            ),
          )
    | inr room ↦
        rw (collect_room m ms count total_bytes spoken room, spoken)
          (collected m ms count total_bytes
            (collect ms (suc count) (total_bytes + length (m.content)))
            (room-fits m ms count total_bytes room)
            (collect_sound ms (suc count) (total_bytes + length (m.content))))
  ]
]

size-append : (a b : List ConversationMessage) → size (a ++ b) ≡ size a + size b
size-append [] b = omega arith
size-append (m ∷ a) b = omega (arith, size-append a b)

size-reverse : (a : List ConversationMessage) → size (reverse a) ≡ size a
size-reverse [] = refl
size-reverse (m ∷ a) =
    ap size (reverse-cons m a) ∙ omega (arith, size-append (reverse a) (m ∷ []), size-reverse a)

length-reverse : (a : List ConversationMessage) → length (reverse a) ≡ length a
length-reverse [] = refl
length-reverse (m ∷ a) =
    ap length (reverse-cons m a)
    ∙ omega (arith, length-append (reverse a) (m ∷ []), length-reverse a)

abbrev pub StartsWithUser : List ConversationMessage → Type 0
StartsWithUser [] = Unit
StartsWithUser (m ∷ ms) = m.role ≡ user

abbrev pub NotUser : ConversationMessage → Type 0
NotUser m = m.role ≢ user

abbrev FromUserSays : List ConversationMessage → List ConversationMessage → Type 0
FromUserSays h r =
    (skipped : List ConversationMessage) × (h ≡ skipped ++ r)
    × All NotUser skipped
    × StartsWithUser r

user_role : (r : Role) → is_user r ≡ true → r ≡ user
user_role r h = ground arith

not_user_role : (r : Role) → is_user r ≡ false → r ≢ user
not_user_role r h e = ground arith

from_user_sound : (h : List ConversationMessage) → FromUserSays h (from_user h)
unfolding from_user
from_user_sound [] = ([], refl, tt, tt)
from_user_sound (m ∷ ms) = elim (Bool-cases (is_user (m.role))) [
  | inl h ↦ rw h ([], refl, tt, user_role (m.role) h)
  | inr h ↦ rw h (skip h (from_user_sound ms))
]
  where
    skip :
        is_user (m.role) ≡ false
        → FromUserSays ms (from_user ms)
        → FromUserSays (m ∷ ms) (from_user ms)
    skip b (skipped, is, all, starts) =
        (m ∷ skipped, ap (λ k. m ∷ k) is, (not_user_role (m.role) b, all), starts)

abbrev pub HistorySays : List AgentMessage → List ConversationMessage → Type 0
HistorySays messages history =
    (skipped older : List ConversationMessage) × (dialogue (reverse messages)
      ≡ reverse (skipped ++ history) ++ older)
    × All NotUser skipped
    × StartsWithUser history
    × (length history ≤ max_conversation_history_messages)
    × (size history ≤ max_conversation_history_bytes)
    × Stops (length (skipped ++ history)) (size (skipped ++ history)) older

module _ (c skipped h : List ConversationMessage) (e : reverse c ≡ skipped ++ h) where
  turned : c ≡ reverse (skipped ++ h)
  turned = sym (reverse-reverse c) ∙ ap reverse e

  kept_length : length c ≡ length (skipped ++ h)
  kept_length = sym (length-reverse c) ∙ ap length e

  kept_size : size c ≡ size (skipped ++ h)
  kept_size = sym (size-reverse c) ∙ ap size e

history_of_collected :
    (messages : List AgentMessage) (c h : List ConversationMessage)
    → CollectSays (reverse messages) 0 0 c
    → FromUserSays (reverse c) h
    → HistorySays messages h
history_of_collected messages c h (counted, sized, (older, is, stops))
      (skipped, e, others, starts) =
    (
      skipped,
      older,
      is ∙ ap (λ k. k ++ older) (turned c skipped h e),
      others,
      starts,
      omega (arith, counted (omega arith), kept_length c skipped h e, length-append skipped h),
      omega (arith, sized (omega arith), kept_size c skipped h e, size-append skipped h),
      Stops-cong (omega (arith, kept_length c skipped h e)) (omega (arith, kept_size c skipped h e))
          older stops,
    )

-- The history is empty or starts with a message of the user. It has at most 64 messages and 262144
-- bytes, and is the end of the dialogue, less messages that are not the user's (`skipped`). A message
-- older than those is left out only because one more would pass a limit.
pub conversation_history_sound :
    (messages : List AgentMessage) → HistorySays messages (conversation_history messages)
unfolding conversation_history
conversation_history_sound messages =
    history_of_collected messages newest_kept (from_user (reverse newest_kept))
      (collect_sound (reverse messages) 0 0) (from_user_sound (reverse newest_kept))
  where
    newest_kept : List ConversationMessage
    newest_kept = collect (reverse messages) 0 0
