-- ===== src/History/Tests.antt =====
-- Two sessions under a bound of one turn.
use production_rag.Base.{◌*◌, ◌≤◌, ◌≡◌, refl, List, [], ◌∷◌, Text, text, length}
use production_rag.History.{ChatTurn, SessionKey, History, new_history, messages_of, keep_last}
use production_rag.History.Window.{Call, gets, appends, run, conversation, run-conversation}

abbrev session : Text → SessionKey
session name = (text "acme", (text "alice", name))

abbrev turn : Text → ChatTurn
turn content = record { role = text "user"; content = content }

abbrev empty : History
empty = record { max_messages = 2; messages = [] }

abbrev chat : List Call
chat =
    appends (session (text "s")) (turn (text "a") ∷ turn (text "b") ∷ [])
    ∷ appends (session (text "t")) (turn (text "c") ∷ [])
    ∷ gets (session (text "s"))
    ∷ appends (session (text "s")) (turn (text "d") ∷ [])
    ∷ []

run-conversation_example :
    (messages_of (run empty chat) (session (text "s"))
      ≡ keep_last (1 * 2) (conversation (session (text "s")) [] chat))
    × (length (messages_of (run empty chat) (session (text "s"))) ≤ 1 * 2)
unfolding new_history
run-conversation_example = run-conversation 1 empty chat (session (text "s")) refl
