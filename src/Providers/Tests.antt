-- ===== src/Providers/Tests.antt =====
-- An answer that cites a source twice and one that does not exist, and a declined exchange.
use production_rag.Base.{
  ℕ, ◌≡◌, refl, false, none, ◌↔◌, [], ◌∷◌, ◌++◌, Text, text, In, Distinct, eqb, if◌then◌else◌,
  strip, ◌==◌, nat_eq, list_eq,
}
use production_rag.History.{ChatTurn}
use production_rag.Query.{abstention}
use production_rag.Providers.{
  Library, split_commas, add_number, add_parts, add_groups, cited_sources, history_for_model,
}
use production_rag.Providers.Citing.{IsSource, cited_sources_exact, history_for_model-exchange}

-- It finds the markers 2, 9 and 1, 2, of one digit each.
abbrev library : Library
library = record {
  unicode = record { is_space = λ c. eqb c 32; digit_value = λ c. none };
  find_citations = λ t. text "2" ∷ text "9,1" ∷ text "2" ∷ [];
  drop_citations = λ t. t;
  read_int = digit;
  words = λ t. t ∷ [];
  leans_back = λ t. false;
}
  where
    digit : Text → ℕ
    digit [] = 0
    digit (c ∷ s) = if eqb c 49 then 1 else if eqb c 50 then 2 else 9

cites_two : cited_sources library (text "yes") 3 ≡ 2 ∷ 1 ∷ []
unfolding cited_sources add_groups add_parts split_commas add_number
cites_two = refl

abbrev question : ChatTurn
question = record { role = text "user"; content = text "who?" }

abbrev answer : ChatTurn
answer = record { role = text "assistant"; content = abstention }

history_for_model-exchange_example : history_for_model library ([] ++ question ∷ answer ∷ []) ≡ (
    if strip library.unicode.is_space answer.content == abstention
    then history_for_model library []
    else history_for_model library []
      ++ question
        ∷ record {
          role = text "assistant";
          content = strip library.unicode.is_space (library.drop_citations answer.content);
        }
        ∷ [])
history_for_model-exchange_example = history_for_model-exchange library [] question answer refl refl

cited_sources_exact_example :
    Distinct (cited_sources library (text "yes") 3)
    × ((k : ℕ)
        → In k (cited_sources library (text "yes") 3) ↔ (
            IsSource 3 k
            × (group : Text) × In group (library.find_citations (text "yes"))
            × (part : Text) × In part (split_commas group)
            × (k ≡ library.read_int part)))
cited_sources_exact_example = cited_sources_exact library 3 (text "yes")
