-- ===== src/Gateway/Packing.antt =====
-- `Budget` and `estimate_tokens` of providers.py: token limits on the sources and on the history
-- that a provider is given.
pub mod Fits
use production_rag.Base.{
  ℕ, zero, suc, ◌+◌, ◌*◌, ◌/◌, max, Bool, not, ◌&&◌, List, [], ◌∷◌, ◌++◌, reverse, Text, is_empty,
  length, take, ltb, if◌then◌else◌,
}
use production_rag.History.{ChatTurn}

pub record Budget : Type 0 where
  pub max_context_tokens : ℕ
  pub max_history_tokens : ℕ

unfoldable pub estimate_tokens : Text → ℕ
estimate_tokens text = max 1 ((length text + 3) / 4)

-- The loop of `pack_context`, over what is packed and used. An oversized best source is cut.
unfoldable pub pack : ℕ → List Text → ℕ → List Text → List Text
pack limit packed used [] = packed
pack limit packed used (text ∷ rest) =
    let cost = estimate_tokens text in
    let oversized = is_empty packed && ltb limit cost in
    let text' = if oversized then take (limit * 4) text else text in
    let cost' = if oversized then limit else cost in
    let more = pack limit (packed ++ text' ∷ []) (used + cost') rest in
    if not (is_empty packed) && ltb limit (used + cost) then packed else more

unfoldable pub pack_context : Budget → List Text → List Text
unfolding pack
pack_context b context = pack b.max_context_tokens [] 0 context

-- The loop of `trim_history`, over the turns from the last one back.
unfoldable pub keep_fitting : ℕ → ℕ → List ChatTurn → List ChatTurn
keep_fitting limit used [] = []
keep_fitting limit used (turn ∷ rest) =
    let cost = estimate_tokens turn.content in
    let more = turn ∷ keep_fitting limit (used + cost) rest in
    if ltb limit (used + cost) then [] else more

unfoldable pub trim_history : Budget → List ChatTurn → List ChatTurn
unfolding keep_fitting
trim_history b history = reverse (keep_fitting b.max_history_tokens 0 (reverse history))
