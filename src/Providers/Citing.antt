-- ===== src/Providers/Citing.antt =====
-- An answer's citations are those of sources that exist, and declined exchanges are forgotten.
use production_rag.Base.{
  ℕ, ◌≡◌, refl, ap, ◌∙◌, ◌≤◌, ◌↔◌, ◌⊎◌, inl, inr, true, false, not, ◌&&◌, List, [], ◌∷◌, ◌++◌,
  arith, Text, text, In, In-append, append_assoc, Distinct, contains, contains_iff, leb, nat_eq,
  list_eq, if◌then◌else◌, Bool-cases, eq_refl, ◌==◌, strip, list_beq,
}
use production_rag.Query.{abstention}
use production_rag.History.{ChatTurn}
use production_rag.Providers.{
  Library, split_commas, add_number, is_role, pop_question, add_parts, add_groups, cited_sources,
  keep_turn, keep_turns, history_for_model,
}

Distinct-append_new : (xs : List ℕ) (a : ℕ) → Distinct xs → ¬ (In a xs) → Distinct (xs ++ a ∷ [])
Distinct-append_new [] a d n = ((λ h. h), tt)
Distinct-append_new (x ∷ xs) a d n = (
  (λ m. elim ((In-append x xs (a ∷ [])).0 m) [
    | inl i ↦ d.0 i
    | inr (inl e) ↦ n (inl (cc e))
    | inr (inr i) ↦ absurd i
  ]),
  Distinct-append_new xs a d.1 (λ m. n (inr m)),
)

module _ (count : ℕ) where
  abbrev pub IsSource : ℕ → Type 0
  IsSource n = (1 ≤ n) × (n ≤ count)

  add_number-Distinct : (n : ℕ) (seen : List ℕ) → Distinct seen → Distinct (add_number count n seen)
  unfolding add_number
  add_number-Distinct n seen d =
      elim (Bool-cases (leb 1 n && leb n count && not (contains seen n))) [
        | inl new ↦
            rw new (Distinct-append_new seen n d (λ m. ground (arith, (contains_iff n seen).1 m)))
        | inr old ↦ rw old d
      ]

  In-add_number :
      (k n : ℕ) (seen : List ℕ)
      → In k (add_number count n seen) ↔ (In k seen ⊎ ((k ≡ n) × IsSource k))
  unfolding add_number
  In-add_number k n seen = elim (Bool-cases (leb 1 n && leb n count && not (contains seen n))) [
    | inl new ↦ rw new (
      (λ m. elim ((In-append k seen (n ∷ [])).0 m) [
        | inl i ↦ inl i
        | inr (inl e) ↦ inr (e, ground arith)
        | inr (inr i) ↦ absurd i
      ]),
      (λ m. (In-append k seen (n ∷ [])).1 (elim m [ inl i ↦ inl i | inr (e, b) ↦ inr (inl e) ])),
    )
    | inr old ↦ rw old (
      (λ m. inl m),
      (λ m. elim m [ inl i ↦ i | inr (e, b) ↦ (contains_iff k seen).0 (ground arith) ]),
    )
  ]

module _ (lib : Library) (count : ℕ) where
  -- The number of a source stands in one of the groups.
  abbrev IsIn : ℕ → List Text → Type 0
  IsIn k parts = (part : Text) × In part parts × (k ≡ lib.read_int part)

  abbrev Names : ℕ → List Text → Type 0
  Names k groups = (group : Text) × In group groups × IsIn k (split_commas group)

  In-add_parts :
      (k : ℕ) (parts : List Text) (seen : List ℕ)
      → In k (add_parts lib count parts seen) ↔ (In k seen ⊎ (IsIn k parts × IsSource count k))
  unfolding add_parts
  In-add_parts k [] seen =
      ((λ m. inl m), (λ m. elim m [ inl i ↦ i | inr ((p, i, e), b) ↦ absurd i ]))
  In-add_parts k (part ∷ parts) seen =
      let next = add_number count (lib.read_int part) seen in
      let one = In-add_number count k (lib.read_int part) seen in
      let rest = In-add_parts k parts next in
      (
        (λ m. elim (rest.0 m) [
          | inl i ↦ elim (one.0 i) [ inl old ↦ inl old | inr (e, b) ↦ inr ((part, inl refl, e), b) ]
          | inr ((p, i, e), b) ↦ inr ((p, inr i, e), b)
        ]),
        (λ m. elim m [
          | inl old ↦ rest.1 (inl (one.1 (inl old)))
          | inr ((p, inl is, e), b) ↦ rest.1 (inl (one.1 (inr (e ∙ ap lib.read_int is, b))))
          | inr ((p, inr i, e), b) ↦ rest.1 (inr ((p, i, e), b))
        ]),
      )

  add_parts-Distinct :
      (parts : List Text) (seen : List ℕ)
      → Distinct seen
      → Distinct (add_parts lib count parts seen)
  unfolding add_parts
  add_parts-Distinct [] seen d = d
  add_parts-Distinct (part ∷ parts) seen d =
      add_parts-Distinct parts (add_number count (lib.read_int part) seen)
        (add_number-Distinct count (lib.read_int part) seen d)

  In-add_groups :
      (k : ℕ) (groups : List Text) (seen : List ℕ)
      → In k (add_groups lib count groups seen) ↔ (In k seen ⊎ (Names k groups × IsSource count k))
  unfolding add_groups
  In-add_groups k [] seen =
      ((λ m. inl m), (λ m. elim m [ inl i ↦ i | inr ((g, i, e), b) ↦ absurd i ]))
  In-add_groups k (group ∷ groups) seen =
      let one = In-add_parts k (split_commas group) seen in
      let rest = In-add_groups k groups (add_parts lib count (split_commas group) seen) in
      (
        (λ m. elim (rest.0 m) [
          | inl i ↦ elim (one.0 i) [
            | inl old ↦ inl old
            | inr (p, b) ↦ inr ((group, inl refl, p), b)
          ]
          | inr ((g, i, p), b) ↦ inr ((g, inr i, p), b)
        ]),
        (λ m. elim m [
          | inl old ↦ rest.1 (inl (one.1 (inl old)))
          | inr ((g, inl is, (p, i, e)), b) ↦
              rest.1 (inl (one.1 (inr ((p, rw (ap split_commas is) at i, e), b))))
          | inr ((g, inr i, p), b) ↦ rest.1 (inr ((g, i, p), b))
        ]),
      )

  add_groups-Distinct :
      (groups : List Text) (seen : List ℕ)
      → Distinct seen
      → Distinct (add_groups lib count groups seen)
  unfolding add_groups
  add_groups-Distinct [] seen d = d
  add_groups-Distinct (group ∷ groups) seen d =
      add_groups-Distinct groups (add_parts lib count (split_commas group) seen)
        (add_parts-Distinct (split_commas group) seen d)

  -- The cited sources are, each once, exactly the numbers from 1 to `source_count` that stand in a
  -- marker of the answer.
  pub cited_sources_exact :
      (answer : Text)
      → Distinct (cited_sources lib answer count)
        × ((k : ℕ)
            → In k (cited_sources lib answer count) ↔ (
                IsSource count k
                × (group : Text) × In group (lib.find_citations answer)
                × (part : Text) × In part (split_commas group)
                × (k ≡ lib.read_int part)))
  unfolding cited_sources
  cited_sources_exact answer =
      let groups = lib.find_citations answer in
      (
        add_groups-Distinct groups [] tt,
        λ k. (
          (λ m. elim ((In-add_groups k groups []).0 m) [
            | inl i ↦ absurd i
            | inr ((g, i, (p, j, e)), b) ↦ (b, g, i, p, j, e)
          ]),
          (λ (b, g, i, p, j, e). (In-add_groups k groups []).1 (inr ((g, i, (p, j, e)), b))),
        ),
      )

user_is_not : (t : ChatTurn) → t.role ≡ text "user" → is_role (text "assistant") t ≡ false
unfolding list_beq
user_is_not t h = rw h refl

module _ (lib : Library) where
  pop_question-append :
      (kept : List ChatTurn) (t : ChatTurn)
      → is_role (text "user") t ≡ true
      → pop_question (kept ++ t ∷ []) ≡ kept
  unfolding pop_question
  pop_question-append [] t h = rw h refl
  pop_question-append (k ∷ []) t h = rw h refl
  pop_question-append (k ∷ l ∷ kept) t h = ap (◌∷◌ k) (pop_question-append (l ∷ kept) t h)

  keep_turns-append :
      (kept xs ys : List ChatTurn)
      → keep_turns lib kept (xs ++ ys) ≡ keep_turns lib (keep_turns lib kept xs) ys
  unfolding keep_turns
  keep_turns-append kept [] ys = refl
  keep_turns-append kept (x ∷ xs) ys = keep_turns-append (keep_turn lib kept x) xs ys

  -- After a turn of the user, a turn of the assistant that is the abstention, but for the space
  -- around it, takes the user's turn with it; any other stays behind the user's turn, with its
  -- citations dropped and the space around the rest.
  pub history_for_model-exchange :
      (history : List ChatTurn) (question answer : ChatTurn)
      → question.role ≡ text "user"
      → answer.role ≡ text "assistant"
      → history_for_model lib (history ++ question ∷ answer ∷ []) ≡ (
          if strip lib.unicode.is_space answer.content == abstention
          then history_for_model lib history
          else history_for_model lib history
            ++ question
              ∷ record {
                role = text "assistant";
                content = strip lib.unicode.is_space (lib.drop_citations answer.content);
              }
              ∷ [])
  unfolding history_for_model keep_turns
  history_for_model-exchange history question answer is_user is_assistant =
      let kept = history_for_model lib history in
      let h : is_role (text "user") question ≡ true = rw (is_user, eq_refl (text "user")) refl in
      let n : is_role (text "assistant") question ≡ false = user_is_not question is_user in
      let a : is_role (text "assistant") answer ≡ true =
        rw (is_assistant, eq_refl (text "assistant")) refl in
      let asked : keep_turn lib kept question ≡ kept ++ question ∷ [] = rw n refl in
      keep_turns-append [] history (question ∷ answer ∷ [])
      ∙ ap (λ k. keep_turn lib k answer) asked
      ∙ elim (Bool-cases (strip lib.unicode.is_space answer.content == abstention)) [
        | inl declined ↦ rw (a, declined) (pop_question-append kept question h)
        | inr other ↦ rw (a, other) (append_assoc kept (question ∷ []) _)
      ]
