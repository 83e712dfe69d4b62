-- ===== src/Observability/Budgets.antt =====
-- `DailyTokenBudget`: model tokens that each tenant has used on each day. The counters may pass the
-- limit, so what remains is the difference of two numbers.
use production_rag.Base.{
  pair_beq, ◌∙◌, ◌≡◌, ◌≤◌, ◌↔◌, true, false, arith, refl, List, [], ◌∷◌, ◌==◌, eq_iff,
  lookup-insert, ◌*◌, ◌-◌, ℕ, ◌+◌, Bool, Option, none, some, Text, Dict, lookup, insert, nat_eq,
  list_eq, pair_eq, leb, eqb, if◌then◌else◌,
}

pub record DailyTokenBudget : Type 0 where
  pub limit : ℕ
  pub used : Dict (Text × Text) ℕ

abbrev pub or_zero : Option ℕ → ℕ
or_zero none = 0
or_zero (some n) = n

abbrev pub used_on : DailyTokenBudget → Text → Text → ℕ
used_on b tenant today = or_zero (lookup (tenant, today) b.used)

-- `remaining(tenant) <= 0`, the test of the one caller; a limit of 0 never runs out. Reading the
-- `defaultdict` enters the key.
unfoldable pub is_exhausted : Text → Text → DailyTokenBudget → Bool × DailyTokenBudget
is_exhausted tenant today b = if eqb b.limit 0 then (Bool.false, b) else (
  leb b.limit (used_on b tenant today),
  record b { used = insert (tenant, today) (used_on b tenant today) b.used },
)

unfoldable pub spend : Text → Text → ℕ → DailyTokenBudget → DailyTokenBudget
spend tenant today tokens b =
    if eqb b.limit 0
    then b
    else record b { used = insert (tenant, today) (used_on b tenant today + tokens) b.used }

-- From the hour, minute and second of the day.
unfoldable pub seconds_until_reset : ℕ → ℕ → ℕ → ℕ
seconds_until_reset hour minute second = 86_400 - (hour * 3600 + minute * 60 + second)

-- Tokens that tenants used, one after the other: tenant, day and number.
abbrev pub Spending : Type 0
Spending = List ((Text × Text) × ℕ)

unfoldable pub spend_all : DailyTokenBudget → Spending → DailyTokenBudget
spend_all b [] = b
spend_all b (((tenant, today), n) ∷ rest) = spend_all (spend tenant today n b) rest

-- What one tenant used on one day.
unfoldable pub spent_on : Text × Text → Spending → ℕ
spent_on k [] = 0
spent_on k ((j, n) ∷ rest) = (if j == k then n else 0) + spent_on k rest

limit-spend : (t d : Text) (n : ℕ) (b : DailyTokenBudget) → (spend t d n b).limit ≡ b.limit
unfolding spend
limit-spend t d n b = ground arith

pub used-spend :
    (t d : Text) (n : ℕ) (tenant today : Text) (b : DailyTokenBudget)
    → eqb b.limit 0 ≡ false
    → used_on (spend t d n b) tenant today
      ≡ used_on b tenant today + (if pair_beq (t, d) (tenant, today) then n else 0)
unfolding spend
used-spend t d n tenant today b on = rw on (
    ground (
      arith,
      lookup-insert (t, d) (tenant, today) (used_on b t d + n) b.used,
      eq_iff t tenant,
      eq_iff d today,
    ))

used-spend_all :
    (tenant today : Text) (b : DailyTokenBudget) (spending : Spending)
    → eqb b.limit 0 ≡ false
    → (used_on (spend_all b spending) tenant today
        ≡ used_on b tenant today + spent_on (tenant, today) spending)
      × ((spend_all b spending).limit ≡ b.limit)
unfolding spend_all spent_on
used-spend_all tenant today b [] on = (omega arith, refl)
used-spend_all tenant today b (((t, d), n) ∷ rest) on =
    let (more, limit) =
      used-spend_all tenant today (spend t d n b) rest (rw (limit-spend t d n b) on) in
    (omega (arith, more, used-spend t d n tenant today b on), limit ∙ limit-spend t d n b)

-- Under a positive limit, a tenant's budget for a day runs out exactly when what that tenant used on
-- that day has reached the limit, whatever other tenants used, and used on other days.
pub is_exhausted_iff :
    (tenant today : Text) (limit : ℕ) (spending : Spending)
    → eqb limit 0 ≡ false
    → ((is_exhausted tenant today (spend_all (record { limit = limit; used = [] }) spending)).0
        ≡ true)
      ↔ (limit ≤ spent_on (tenant, today) spending)
unfolding is_exhausted
is_exhausted_iff tenant today limit spending on =
    let start : DailyTokenBudget = record { limit = limit; used = [] } in
    let (used, same) = used-spend_all tenant today start spending on in
    let spent : used_on (spend_all start spending) tenant today
        ≡ spent_on (tenant, today) spending =
      used ∙ unfold lookup in omega arith in
    (λ h. ground (arith, spent, same), λ h. ground (arith, spent, same))
