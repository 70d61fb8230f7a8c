-- ===== src/Services/Costs.antt =====
-- How many requests an action makes at most: one rule for each way to build an action.
use obs_operator.Base.{ℕ, ◌+◌, ◌≤◌, Bool, true, false, length, arith, if◌then◌else◌}
use obs_operator.Errors.{GoError, Result, ok, err}
use obs_operator.Services.{Services, Request}
use obs_operator.Services.Action.{
  World, Action, pure, fail, handle, from_result, read_world, call, on_error, check_context, ◌>>=◌,
}
use obs_operator.Services.Run.{world-check_context}

-- Whatever the services answer, `m` makes `n` requests at most.
pub record Costs {K : Services} {A : Type 0} (n : ℕ) (m : Action K A) : Type 0 where
  pub at : (w : World K) → length (m w).1.trace ≤ length w.trace + n

module _ {K : Services} where
  pub Costs-le : {A : Type 0} {m : Action K A} (a b : ℕ) → a ≤ b → Costs a m → Costs b m
  Costs-le a b i h = record { at = λ w. let j = h.at w in omega (arith, i, j) }

  pub Costs-pure : {n : ℕ} {A : Type 0} (a : A) → Costs {K = K} n (pure a)
  unfolding pure
  Costs-pure a = record { at = λ w. omega arith }

  pub Costs-fail : {n : ℕ} {A : Type 0} (e : GoError) → Costs {K = K} {A = A} n (fail e)
  unfolding fail
  Costs-fail e = record { at = λ w. omega arith }

  pub Costs-handle :
      {A B : Type 0} (a b : ℕ) (m : Action K A) (f : A → Action K B) (g : GoError → Action K B)
      → Costs a m
      → ((x : A) → Costs b (f x))
      → ((e : GoError) → Costs b (g e))
      → Costs (a + b) (handle m f g)
  unfolding handle
  Costs-handle {A} {B} a b m f g hm hf hg = record {
    at = λ w. let i = hm.at w in let j = go (m w).0 (m w).1 in omega (arith, i, j);
  }
    where
      go :
          (r : Result A) (w : World K)
          → length (handle {K = K} (λ _. (r, w)) f g w).1.trace ≤ length w.trace + b
      go (ok x) w = (hf x).at w
      go (err e) w = (hg e).at w

  -- A read and what it leads to.
  pub Costs-step :
      {A B : Type 0} (m : Action K A) (f : A → Action K B)
      → Costs 1 m
      → ((x : A) → Costs 1 (f x))
      → Costs 2 (m >>= f)
  Costs-step m f hm hf = Costs-handle 1 1 m f fail hm hf (λ e. Costs-fail e)

  -- A request, and what is made of its answer.
  pub Costs-answer :
      {A B : Type 0} (m : Action K A) (f : A → Action K B) (g : GoError → Action K B)
      → Costs 1 m
      → ((x : A) → Costs 0 (f x))
      → ((e : GoError) → Costs 0 (g e))
      → Costs 1 (handle m f g)
  Costs-answer m f g hm hf hg = Costs-handle 1 0 m f g hm hf hg

  pub Costs-if :
      {n : ℕ} {A : Type 0} (b : Bool) (m m' : Action K A)
      → Costs n m
      → Costs n m'
      → Costs n (if b then m else m')
  Costs-if true m m' h h' = h
  Costs-if false m m' h h' = h'

  pub Costs-read_world : {n : ℕ} → Costs {K = K} n read_world
  unfolding read_world
  Costs-read_world = record { at = λ w. omega arith }

  pub Costs-from_result : {n : ℕ} {A : Type 0} (r : Result A) → Costs {K = K} n (from_result r)
  unfolding from_result
  Costs-from_result (ok a) = Costs-pure a
  Costs-from_result (err e) = Costs-fail e

  pub Costs-on_error :
      {A : Type 0} (f : GoError → Result A) (m : Action K A) → Costs 1 m → Costs 1 (on_error f m)
  Costs-on_error f m h =
      Costs-answer m pure (λ e. from_result (f e)) h (λ a. Costs-pure a)
        (λ e. Costs-from_result (f e))

  pub Costs-call : (q : Request) → Costs 1 (call K q)
  unfolding call
  Costs-call q = record { at = λ w. omega arith }

  pub Costs-check_context : {n : ℕ} → Costs n (check_context K)
  Costs-check_context = record { at = λ w. rw (world-check_context K w) (omega arith) }

pub ruleset cost_rules = (
  Costs-pure, Costs-fail, Costs-step, Costs-answer, Costs-if, Costs-call, Costs-read_world,
  Costs-from_result,
)
