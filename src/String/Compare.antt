-- ===== src/String/Compare.antt =====
-- `strcmp`, `strncmp` and `memcmp` against the order of lists of characters.
use joslab4_init.Base.{
  ℕ, zero, suc, ◌<◌, ◌≡◌, ◌≢◌, ◌↔◌, ◌⊎◌, inl, inr, ap, refl, some, List, [], ◌∷◌, arith, length,
}
use joslab4_init.Base.Int.{ℤ, pos, sub_ℕ, IsNegative, sub_ℕ-zero, sub_ℕ-IsNegative}
use mathlib.Core.Path.{subst}
use native.Mathlib.Decide.{ℕ_discrete}
use joslab4_init.Memory.{Memory, IsString}
use joslab4_init.String.{strcmp}

-- Lexicographic order, where a proper prefix comes first.
abbrev pub Precedes : List ℕ → List ℕ → Type 0
Precedes [] [] = ⊥
Precedes [] (y ∷ ys) = Unit
Precedes (x ∷ xs) [] = ⊥
Precedes (x ∷ xs) (y ∷ ys) = (x < y) ⊎ ((x ≡ y) × Precedes xs ys)

-- What a comparison of two lists returns: 0 exactly if they are equal, and a negative number exactly
-- if the first precedes the second.
pub record Ordered (r : ℤ) (xs ys : List ℕ) : Type 0 where
  pub equal : (r ≡ pos 0) ↔ (xs ≡ ys)
  pub less : IsNegative r ↔ Precedes xs ys

Ordered-cons : (r : ℤ) (x : ℕ) (xs ys : List ℕ) → Ordered r xs ys → Ordered r (x ∷ xs) (x ∷ ys)
Ordered-cons r x xs ys o = record {
  equal = (λ e. ap (λ (zs : List ℕ). x ∷ zs) (o.equal.0 e), λ e. o.equal.1 (cc));
  less = (λ n. inr (refl, o.less.0 n), λ p. ground (arith, o.less.1));
}

Ordered-ne : (x y : ℕ) (xs ys : List ℕ) → x ≢ y → Ordered (sub_ℕ x y) (x ∷ xs) (y ∷ ys)
Ordered-ne x y xs ys ne = record {
  equal = (λ e. absurd (ne ((sub_ℕ-zero x y).0 e)), λ e. absurd (ne (cc)));
  less = (λ n. inl ((sub_ℕ-IsNegative x y).0 n), λ p. ground (arith, (sub_ℕ-IsNegative x y).1));
}

-- `strcmp` of two strings terminates with 0 exactly if they are equal, and with a negative number
-- exactly if the first comes before the second in the order of unsigned characters.
pub strcmp-Ordered :
    (fuel : ℕ) (m : Memory) (p q : ℕ) (xs ys : List ℕ)
    → IsString m p xs
    → IsString m q ys
    → length xs < fuel
    → (r : ℤ) × (strcmp fuel m p q ≡ some r) × Ordered r xs ys
unfolding strcmp
strcmp-Ordered zero m p q xs ys sx sy h = absurd (omega arith)
strcmp-Ordered (suc fuel) m p q [] [] sx sy h = (
  pos 0,
  ground (arith, sx, sy),
  record { equal = (λ e. refl, λ e. refl); less = (λ n. n, λ n. n) },
)
strcmp-Ordered (suc fuel) m p q [] (y ∷ ys) sx (cy, nz, sy) h = (
  sub_ℕ 0 y,
  ground (arith, sx),
  record {
    equal = (λ e. ground arith, λ e. cc);
    less = (λ n. tt, λ t. (sub_ℕ-IsNegative 0 y).1 (omega arith));
  },
)
strcmp-Ordered (suc fuel) m p q (x ∷ xs) [] (cx, nz, sx) sy h = (
  sub_ℕ x 0,
  ground (arith, sy),
  record {
    equal = (λ e. ground arith, λ e. cc);
    less = (λ n. absurd (omega (arith, (sub_ℕ-IsNegative x 0).0 n)), λ t. absurd t);
  },
)
strcmp-Ordered (suc fuel) m p q (x ∷ xs) (y ∷ ys) (cx, nx, sx) (cy, ny, sy) h =
    elim (ℕ_discrete x y) [
      | yes same ↦
          let (r, ran, o) = strcmp-Ordered fuel m (suc p) (suc q) xs ys sx sy (omega arith) in
          (
            r,
            ground (arith, ran),
            subst (λ z. Ordered r (x ∷ xs) (z ∷ ys)) same (Ordered-cons r x xs ys o),
          )
      | no other ↦ (sub_ℕ x y, ground arith, Ordered-ne x y xs ys other)
    ]
