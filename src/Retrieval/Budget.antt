-- ===== src/Retrieval/Budget.antt =====
-- src/ai_researcher/retrieval/budget.py. Limits and counts are natural numbers: a negative one,
-- which Python admits, fails the same tests.
use ai_researcher.Prelude.{
  ℕ, ◌+◌, ◌-◌, ◌≤◌, ◌≡◌, Bool, leb, nat_eq, ◌==◌, arith, Result, ok, err, guard, ◌>>◌,
}
use ai_researcher.Retrieval.Errors.{Error, limit_not_positive, used_out_of_range, budget_exceeded}

pub record ExpansionBudget : Type 0 where
  pub limit : ℕ
  pub used : ℕ

-- The constructor, with `__post_init__`.
unfoldable pub create : ℕ → ℕ → Result Error ExpansionBudget
create limit used = do
  guard (leb 1 limit) limit_not_positive
  guard (leb used limit) used_out_of_range
  ok (record { limit = limit; used = used })

abbrev pub remaining : ExpansionBudget → ℕ
remaining b = b.limit - b.used

abbrev pub exhausted : ExpansionBudget → Bool
exhausted b = remaining b == 0

unfoldable pub consume : ExpansionBudget → ℕ → Result Error ExpansionBudget
consume b count = do
  guard (leb count (remaining b)) budget_exceeded
  ok (record b { used = b.used + count })

pub record IsWithin (b : ExpansionBudget) : Type 0 where
  pub positive : 1 ≤ b.limit
  pub bounded : b.used ≤ b.limit

-- A budget that could be created is within its limit, and stays so whatever is consumed.
pub create-IsWithin : (limit used : ℕ) {b : ExpansionBudget} → create limit used ≡ ok b → IsWithin b
unfolding create
create-IsWithin limit used h = ground arith

pub consume-IsWithin :
    (b : ExpansionBudget) (count : ℕ) {c : ExpansionBudget}
    → IsWithin b
    → consume b count ≡ ok c
    → IsWithin c × (remaining c + count ≡ remaining b) × (c.limit ≡ b.limit)
unfolding consume
consume-IsWithin b count w h = ground arith

-- What is refused is exactly what would pass the limit.
pub consume-refuses_iff :
    (b : ExpansionBudget) (count : ℕ)
    → IsWithin b
    → (consume b count ≡ err budget_exceeded → b.limit + 1 ≤ b.used + count)
      × (b.limit + 1 ≤ b.used + count → consume b count ≡ err budget_exceeded)
unfolding consume
consume-refuses_iff b count w = (λ h. ground arith, λ h. ground arith)
