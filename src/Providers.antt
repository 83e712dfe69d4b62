-- ===== src/Providers.antt =====
-- providers.py: which sources an answer cites, and what a model sees of the conversation.
pub mod Citing
mod Tests
use production_rag.Base.{
  ℕ, ◌+◌, take, Bool, true, false, not, ◌&&◌, ◌||◌, Option, none, some, List, [], ◌∷◌, ◌++◌,
  reverse, Text, text, Unicode, strip, is_empty, length, contains, leb, eqb, ◌==◌, nat_eq, list_eq,
  if◌then◌else◌,
}
use production_rag.Chunking.{join}
use production_rag.History.{ChatTurn}
use production_rag.Query.{abstention}

-- What the standard library does: the groups that CITATION_RE finds and its replacement by nothing,
-- `int`, `str.split`, and whether FOLLOW_UP_RE is found.
pub record Library : Type 0 where
  pub unicode : Unicode
  pub find_citations : Text → List Text
  pub drop_citations : Text → Text
  pub read_int : Text → ℕ
  pub words : Text → List Text
  pub leans_back : Text → Bool

-- `group.split(",")`
unfoldable pub split_commas : Text → List Text
split_commas [] = [] ∷ []
split_commas (c ∷ s) = if eqb c 44 then [] ∷ split_commas s else extend c (split_commas s)
  where
    extend : ℕ → List Text → List Text
    extend c [] = (c ∷ []) ∷ []
    extend c (t ∷ ts) = (c ∷ t) ∷ ts

unfoldable pub add_number : ℕ → ℕ → List ℕ → List ℕ
add_number count n seen =
    if leb 1 n && leb n count && not (contains seen n) then seen ++ n ∷ [] else seen

abbrev pub is_role : Text → ChatTurn → Bool
is_role role turn = turn.role == role

-- `next((turn.content for turn in turns if turn.role == "user"), None)`
unfoldable pub first_question : List ChatTurn → Option Text
first_question [] = none
first_question (t ∷ ts) = if is_role (text "user") t then some t.content else first_question ts

-- `if kept and kept[-1].role == "user": kept.pop()`
unfoldable pub pop_question : List ChatTurn → List ChatTurn
pop_question [] = []
pop_question (t ∷ []) = if is_role (text "user") t then [] else t ∷ []
pop_question (t ∷ u ∷ ts) = t ∷ pop_question (u ∷ ts)

module _ (lib : Library) where
  abbrev pub trimmed : Text → Text
  trimmed s = strip lib.unicode.is_space s

  -- `f"{text.strip()} [{number}]"` of each source, for numbers of one digit.
  unfoldable pub numbered : ℕ → List Text → List Text
  numbered n [] = []
  numbered n (t ∷ ts) = (trimmed t ++ text " [" ++ (48 + n) ∷ text "]") ∷ numbered (n + 1) ts

  -- `ExtractiveProvider.generate`
  unfoldable pub extract_answer : List Text → Text
  unfolding numbered
  extract_answer [] = abstention
  extract_answer (t ∷ ts) =
      text "Based on the indexed sources: " ++ join (text " ") (numbered 1 (take 3 (t ∷ ts)))

  unfoldable pub add_parts : ℕ → List Text → List ℕ → List ℕ
  add_parts count [] seen = seen
  add_parts count (part ∷ parts) seen =
      add_parts count parts (add_number count (lib.read_int part) seen)

  unfoldable pub add_groups : ℕ → List Text → List ℕ → List ℕ
  add_groups count [] seen = seen
  add_groups count (group ∷ groups) seen =
      add_groups count groups (add_parts count (split_commas group) seen)

  unfoldable pub cited_sources : Text → ℕ → List ℕ
  cited_sources answer count = add_groups count (lib.find_citations answer) []

  abbrev pub looks_like_follow_up : Text → Bool
  looks_like_follow_up question = leb (length (lib.words question)) 3 || lib.leans_back question

  abbrev pub with_previous : Option Text → Text → Text
  with_previous none question = question
  with_previous (some []) question = question
  with_previous (some (c ∷ s)) question =
      if looks_like_follow_up question then (c ∷ s) ++ text " " ++ question else question

  unfoldable pub heuristic_rewrite : Text → List ChatTurn → Text
  heuristic_rewrite question history = with_previous (first_question (reverse history)) question

  abbrev pub is_decline : ChatTurn → Bool
  is_decline turn = is_role (text "assistant") turn && trimmed turn.content == abstention

  -- An answer without its citations; another turn as it is.
  abbrev pub cleaned : ChatTurn → ChatTurn
  cleaned turn =
      if is_role (text "assistant") turn
      then record { role = text "assistant"; content = trimmed (lib.drop_citations turn.content) }
      else turn

  abbrev pub keep_turn : List ChatTurn → ChatTurn → List ChatTurn
  keep_turn kept turn = if is_decline turn then pop_question kept else kept ++ cleaned turn ∷ []

  unfoldable pub keep_turns : List ChatTurn → List ChatTurn → List ChatTurn
  unfolding pop_question
  keep_turns kept [] = kept
  keep_turns kept (turn ∷ turns) = keep_turns (keep_turn kept turn) turns

  unfoldable pub history_for_model : List ChatTurn → List ChatTurn
  history_for_model history = keep_turns [] history
