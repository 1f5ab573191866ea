-- ===== src/Agent/History.antt =====
-- internal/agent/service.go: `conversationHistory`, the dialogue that a turn hands to the provider.
-- A sum of sizes is compared where the source subtracts, since the source's integers are signed.
pub mod Bounds
use mathlib.Core.List.{reverse}
use aisummoner.Prelude.{
  ℕ, ◌+◌, ◌*◌, Bool, true, false, List, [], ◌∷◌, ◌||◌, leb, ltb, length, suc, if◌then◌else◌,
}
use aisummoner.Store.Data.{Bytes, Role, user, assistant, AgentMessage}

abbrev pub max_conversation_history_messages : ℕ
max_conversation_history_messages = 64

abbrev pub max_conversation_history_bytes : ℕ
max_conversation_history_bytes = 256 * 1024

pub record ConversationMessage : Type 0 where
  pub role : Role
  pub content : Bytes

abbrev pub is_user : Role → Bool
is_user = elim [ user ↦ true | _ ↦ false ]

abbrev pub is_dialogue : Role → Bool
is_dialogue = elim [ user ↦ true | assistant ↦ true | _ ↦ false ]

abbrev pub conversation_message : AgentMessage → ConversationMessage
conversation_message m = record { role = m.role; content = m.content }

abbrev pub is_full : ℕ → ℕ → AgentMessage → Bool
is_full count total_bytes m =
    leb max_conversation_history_messages count
    || ltb max_conversation_history_bytes (total_bytes + length (m.content))

-- The loop over the messages, newest first, that have not been seen; the loop's list is returned
-- from where it stands on.
unfoldable pub collect : List AgentMessage → ℕ → ℕ → List ConversationMessage
collect [] count total_bytes = []
collect (m ∷ ms) count total_bytes = elim (is_dialogue (m.role)) [
  | false ↦ collect ms count total_bytes
  | true ↦ elim (is_full count total_bytes m) [
    | true ↦ []
    | false ↦ conversation_message m ∷ collect ms (suc count) (total_bytes + length (m.content))
  ]
]

unfoldable pub from_user : List ConversationMessage → List ConversationMessage
from_user [] = []
from_user (m ∷ ms) = let rest = from_user ms in if is_user (m.role) then m ∷ ms else rest

unfoldable pub conversation_history : List AgentMessage → List ConversationMessage
conversation_history messages = from_user (reverse (collect (reverse messages) 0 0))
