-- ===== src/User/Calls.antt =====
-- What the loop of `ipc_find_env` finds.
use joslab4_init.Base.{ℕ, zero, suc, ◌+◌, ◌-◌, ◌≤◌, ◌<◌, ◌≡◌, ◌≢◌, ap, ◌∙◌, ne→==, eq→==, arith}
use native.Mathlib.Decide.{ℕ_discrete}
use joslab4_init.Env.{nenv}
use joslab4_init.User.{find_env, ipc_find_env}

-- The first environment of the type from index `i` on, or none up to the end of the array.
pub data FindsEnv (env_type env_id : ℕ → ℕ) (type i : ℕ) : ℕ → Type 0 where
  found :
      (j : ℕ)
      → i ≤ j
      → j < nenv
      → env_type j ≡ type
      → ((k : ℕ) → i ≤ k → k < j → env_type k ≢ type)
      → FindsEnv env_type env_id type i (env_id j)
  not_found : ((k : ℕ) → i ≤ k → k < nenv → env_type k ≢ type) → FindsEnv env_type env_id type i 0

skip :
    (env_type env_id : ℕ → ℕ) (type i r : ℕ)
    → env_type i ≢ type
    → FindsEnv env_type env_id type (suc i) r
    → FindsEnv env_type env_id type i r
skip env_type env_id type i r ne (found j h lt e before) = found j (omega arith) lt e (λ k a b.
    elim (ℕ_discrete k i) [
      | yes same ↦ λ q. ne (ap env_type (omega arith) ∙ q)
      | no other ↦ before k (omega arith) b
    ])
skip env_type env_id type i r ne (not_found none) = not_found (λ k a b. elim (ℕ_discrete k i) [
  | yes same ↦ λ q. ne (ap env_type (omega arith) ∙ q)
  | no other ↦ none k (omega arith) b
])

find_env-FindsEnv :
    (env_type env_id : ℕ → ℕ) (type n i : ℕ)
    → i + n ≡ nenv
    → FindsEnv env_type env_id type i (find_env env_type env_id type n)
unfolding find_env
find_env-FindsEnv env_type env_id type zero i e = not_found (λ k a b. absurd (omega arith))
find_env-FindsEnv env_type env_id type (suc n) i e =
    let at : nenv - suc n ≡ i = omega arith in
    elim (ℕ_discrete (env_type i) type) [
      | yes same ↦
          rw (at, eq→== (env_type i) type same)
            (found i (omega arith) (omega arith) same (λ k a b. absurd (omega arith)))
      | no other ↦
          rw (at, ne→== (env_type i) type other)
            (skip env_type env_id type i _ other
              (find_env-FindsEnv env_type env_id type n (suc i) (omega arith)))
    ]

-- `ipc_find_env` returns the id of the first environment of the type, or 0 if there is none.
pub ipc_find_env-FindsEnv :
    (env_type env_id : ℕ → ℕ) (type : ℕ)
    → FindsEnv env_type env_id type 0 (ipc_find_env env_type env_id type)
unfolding ipc_find_env
ipc_find_env-FindsEnv env_type env_id type =
    find_env-FindsEnv env_type env_id type nenv 0 (omega arith)
