-- ===== src/History/Window.antt =====
-- A session's history is the latest part of what was appended to it, within the bound.
use production_rag.Base.{
  drop-nil, ◌*◌, ok, ok, ap, ◌∙◌, sym, ℕ, zero, suc, ◌-◌, ◌≤◌, ◌≡◌, refl, if◌then◌else◌, Bool-cases,
  ◌==◌, inl, inr, ap, sym, ◌∙◌, List, [], ◌∷◌, ◌++◌, arith, drop, length, length-append,
  length-drop, drop-drop, lookup, lookup-insert, lookup-remove, eq_iff, nat_eq, list_eq, pair_eq,
}
use production_rag.History.{
  new_history, ChatTurn, SessionKey, History, messages_of, get, append, clear, keep_last,
}

-- The calls of a history.
pub data Call : Type 0 where
  gets : SessionKey → Call
  appends : SessionKey → List ChatTurn → Call
  clears : SessionKey → Call

unfoldable pub step : History → Call → History
step h (gets key) = (get h key).1
step h (appends key turns) = append h key turns
step h (clears key) = clear h key

unfoldable pub run : History → List Call → History
run h [] = h
run h (c ∷ cs) = run (step h c) cs

-- The whole conversation of a session since it was last cleared, with no bound.
unfoldable pub conversation : SessionKey → List ChatTurn → List Call → List ChatTurn
conversation key said [] = said
conversation key said (gets k ∷ cs) = conversation key said cs
conversation key said (appends k turns ∷ cs) =
    conversation key (if k == key then said ++ turns else said) cs
conversation key said (clears k ∷ cs) = conversation key (if k == key then [] else said) cs

drop-append_le {ℓ} :
    {A : Type ℓ} (k : ℕ) (xs ys : List A) → k ≤ length xs → drop k (xs ++ ys) ≡ drop k xs ++ ys
drop-append_le zero xs ys h = refl
drop-append_le (suc k) [] ys h = elim h [ ]
drop-append_le (suc k) (x ∷ xs) ys h = drop-append_le k xs ys (omega arith)

length-keep_last {ℓ} : {A : Type ℓ} (n : ℕ) (xs : List A) → length (keep_last n xs) ≤ n
length-keep_last n xs = omega (arith, length-drop (length xs - n) xs)

-- To cut before and after an append is to cut after it.
keep_last-append {ℓ} :
    {A : Type ℓ} (n : ℕ) (xs ys : List A)
    → keep_last n (keep_last n xs ++ ys) ≡ keep_last n (xs ++ ys)
keep_last-append n xs ys =
    let k = length xs - n in
    let cut : drop k xs ++ ys ≡ drop k (xs ++ ys) = sym (drop-append_le k xs ys (omega arith)) in
    rw cut (
      drop-drop (length (drop k (xs ++ ys)) - n) k (xs ++ ys)
      ∙ ap (λ j. drop j (xs ++ ys)) (omega (arith, length-drop k (xs ++ ys), length-append xs ys)))

module _ (key : SessionKey) where
  messages_of-gets :
      (h : History) (k : SessionKey) → messages_of (get h k).1 key ≡ messages_of h key
  unfolding get
  messages_of-gets h k =
      ground (arith, lookup-insert k key (messages_of h k) h.messages, eq_iff k key)

  messages_of-appends :
      (h : History) (k : SessionKey) (turns : List ChatTurn)
      → messages_of (append h k turns) key ≡ (
          if k == key
          then keep_last h.max_messages (messages_of h key ++ turns)
          else messages_of h key)
  unfolding append
  messages_of-appends h k turns = ground (
    arith,
    lookup-insert k key (keep_last h.max_messages (messages_of h k ++ turns)) h.messages,
    eq_iff k key,
  )

  messages_of-clears :
      (h : History) (k : SessionKey)
      → messages_of (clear h k) key ≡ (if k == key then [] else messages_of h key)
  unfolding clear messages_of
  messages_of-clears h k = ground (arith, lookup-remove k key h.messages, eq_iff k key)

  -- The store's session is the conversation, cut to the bound.
  abbrev Follows : History → List ChatTurn → Type 0
  Follows h said = messages_of h key ≡ keep_last h.max_messages said

  appends-Follows :
      (h : History) (k : SessionKey) (turns said : List ChatTurn)
      → Follows h said
      → Follows (append h k turns) (if k == key then said ++ turns else said)
  appends-Follows h k turns said f = elim (Bool-cases (k == key)) [
    | inl same ↦
        rw (messages_of-appends h k turns, same)
          (unfold append in
            ap (λ xs. keep_last h.max_messages (xs ++ turns)) f
            ∙ keep_last-append h.max_messages said turns)
    | inr other ↦ rw (messages_of-appends h k turns, other) (unfold append in f)
  ]

  clears-Follows :
      (h : History) (k : SessionKey) (said : List ChatTurn)
      → Follows h said
      → Follows (clear h k) (if k == key then [] else said)
  unfolding clear
  clears-Follows h k said f = ground (arith, messages_of-clears h k)

  run-Follows :
      (cs : List Call) (h : History) (said : List ChatTurn)
      → Follows h said
      → Follows (run h cs) (conversation key said cs)
  unfolding run step conversation
  run-Follows [] h said f = f
  run-Follows (gets k ∷ cs) h said f =
      run-Follows cs (get h k).1 said (unfold get in messages_of-gets h k ∙ f)
  run-Follows (appends k turns ∷ cs) h said f =
      run-Follows cs (append h k turns) _ (appends-Follows h k turns said f)
  run-Follows (clears k ∷ cs) h said f = run-Follows cs (clear h k) _ (clears-Follows h k said f)

run-max_messages : (h : History) (cs : List Call) → (run h cs).max_messages ≡ h.max_messages
unfolding run step get append clear
run-max_messages h [] = refl
run-max_messages h (gets k ∷ cs) = run-max_messages (get h k).1 cs
run-max_messages h (appends k turns ∷ cs) = run-max_messages (append h k turns) cs
run-max_messages h (clears k ∷ cs) = run-max_messages (clear h k) cs

new_history-ok :
    (max_turns : ℕ) (h : History)
    → new_history max_turns ≡ ok h
    → (h.max_messages ≡ max_turns * 2) × (h.messages ≡ [])
unfolding new_history
new_history-ok max_turns h made = ground arith

-- After any calls on a new store, the session of a caller holds the last `2 * max_turns` messages
-- of that session's own conversation since it was last cleared, and never more than that many.
pub run-conversation :
    (max_turns : ℕ) (h : History) (cs : List Call) (key : SessionKey)
    → new_history max_turns ≡ ok h
    → (messages_of (run h cs) key ≡ keep_last (max_turns * 2) (conversation key [] cs))
      × (length (messages_of (run h cs) key) ≤ max_turns * 2)
run-conversation max_turns h cs key made =
    let (bound, empty) = new_history-ok max_turns h made in
    let start : messages_of h key ≡ keep_last h.max_messages [] =
      unfold messages_of lookup in rw empty (sym (drop-nil (0 - h.max_messages))) in
    let follows = run-Follows key cs h [] start in
    let same : (run h cs).max_messages ≡ max_turns * 2 = run-max_messages h cs ∙ bound in
    let window : messages_of (run h cs) key ≡ keep_last (max_turns * 2) (conversation key [] cs) =
      follows ∙ ap (λ n. keep_last n (conversation key [] cs)) same in
    (window, rw window (length-keep_last (max_turns * 2) (conversation key [] cs)))
