-- ===== src/Kdebug/Scan.antt =====
-- The inner loop of `stab_binsearch`.
use native.Mathlib.Decide.{dec_lt}
use joslab4_init.Base.{
  ℕ, zero, suc, ◌≤◌, ◌<◌, ◌≡◌, ◌≢◌, ◌⊎◌, ◌∙◌, ap, refl, inl, inr, none, some, arith,
}
use joslab4_init.Kdebug.{Stabs, find_back}

-- No index from `i` up to `j` has a stab of the type.
abbrev pub NoneIn : Stabs → (type i j : ℕ) → Type 0
NoneIn stabs type i j = (k : ℕ) → i ≤ k → k < j → (stabs k).n_type ≢ type

NoneIn-suc :
    (stabs : Stabs) (type i j : ℕ)
    → NoneIn stabs type i j
    → (stabs j).n_type ≢ type
    → NoneIn stabs type i (suc j)
NoneIn-suc stabs type i j h ne k h1 h2 = elim (dec_lt k j) [
  | yes less ↦ h k h1 less
  | no more ↦ λ e. ne (ap (λ (x : ℕ). (stabs x).n_type) (omega arith) ∙ e)
]

pub eq_cases : (a b : ℕ) → (a ≡ b) ⊎ (a ≢ b)
eq_cases a b = elim (dec_lt a b) [
  | yes h ↦ inr (omega arith)
  | no h ↦ elim (dec_lt b a) [ yes g ↦ inr (omega arith) | no g ↦ inl (omega arith) ]
]

-- `m` is the last index of the range with a stab of the type.
pub record FoundBack (stabs : Stabs) (type l end m : ℕ) : Type 0 where
  pub from : l ≤ m
  pub to : m < end
  pub is : (stabs m).n_type ≡ type
  pub rest : NoneIn stabs type (suc m) end

pub find_back_cases :
    (stabs : Stabs) (type l end : ℕ)
    → ((find_back stabs type l end ≡ none) × NoneIn stabs type l end)
      ⊎ ((m : ℕ) × (find_back stabs type l end ≡ some m) × FoundBack stabs type l end m)
unfolding find_back
find_back_cases stabs type l zero = inl (refl, λ k h1 h2. absurd (omega arith))
find_back_cases stabs type l (suc m) = elim (dec_lt m l) [
  | yes h ↦ inl (ground arith, λ k h1 h2. absurd (omega arith))
  | no h ↦ elim (eq_cases (stabs m).n_type type) [
    | inl e ↦ inr (
      m,
      ground arith,
      record {
        from = omega arith;
        to = omega arith;
        is = e;
        rest = λ k h1 h2. absurd (omega arith);
      },
    )
    | inr ne ↦ elim (find_back_cases stabs type l m) [
      | inl (e, none_in) ↦ inl (ground (arith, e), NoneIn-suc stabs type l m none_in ne)
      | inr (k, e, b) ↦ inr (
        k,
        ground (arith, e, b.from, b.to),
        record {
          from = b.from;
          to = omega (arith, b.to);
          is = b.is;
          rest = NoneIn-suc stabs type (suc k) m b.rest ne;
        },
      )
    ]
  ]
]

pub NoneIn-join :
    (stabs : Stabs) (type i j k : ℕ)
    → NoneIn stabs type i j
    → NoneIn stabs type j k
    → NoneIn stabs type i k
NoneIn-join stabs type i j k f g n h1 h2 = elim (dec_lt n j) [
  | yes h ↦ f n h1 h
  | no h ↦ g n (omega arith) h2
]
