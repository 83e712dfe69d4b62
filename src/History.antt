-- ===== src/History.antt =====
-- history.py, `ChatHistoryStore`: the bounded history of each chat session in memory. Its
-- dictionary is a `defaultdict`, so also a read enters the key.
pub mod Window
mod Tests
use production_rag.Base.{
  ℕ, zero, suc, ◌+◌, ◌-◌, ◌*◌, Bool, ◌≡◌, ◌≤◌, refl, Option, none, some, List, [], ◌++◌, arith,
  Text, text, Result, ok, err, nat_eq, list_eq, pair_eq, Dict, lookup, insert, remove, drop, length,
  eqb, if◌then◌else◌,
}
use production_rag.Permissions.{ValueError, value_error}

pub record ChatTurn : Type 0 where
  pub role : Text
  pub content : Text

-- Tenant, user and session.
abbrev pub SessionKey : Type 0
SessionKey = Text × (Text × Text)

pub record History : Type 0 where
  pub max_messages : ℕ
  pub messages : Dict SessionKey (List ChatTurn)

-- `ChatHistoryStore(max_turns)`, for a number of turns that is not negative.
unfoldable pub new_history : ℕ → Result ValueError History
new_history max_turns =
    if eqb max_turns 0
    then err (value_error (text "max_turns must be positive"))
    else ok (record { max_messages = max_turns * 2; messages = [] })

abbrev pub or_default : Option (List ChatTurn) → List ChatTurn
or_default none = []
or_default (some turns) = turns

-- `self._messages[key]`
unfoldable pub messages_of : History → SessionKey → List ChatTurn
messages_of h key = or_default (lookup key h.messages)

unfoldable pub get : History → SessionKey → List ChatTurn × History
unfolding messages_of
get h key = (messages_of h key, record h { messages = insert key (messages_of h key) h.messages })

-- `del messages[:-n]`: a slice that stops `n` before the end is empty if there are at most `n`.
abbrev pub keep_last {ℓ} : {A : Type ℓ} → ℕ → List A → List A
keep_last n xs = drop (length xs - n) xs

unfoldable pub append : History → SessionKey → List ChatTurn → History
unfolding messages_of
append h key turns = record h {
  messages = insert key (keep_last h.max_messages (messages_of h key ++ turns)) h.messages;
}

unfoldable pub clear : History → SessionKey → History
clear h key = record h { messages = remove key h.messages }
