-- ===== src/Validator/Links/Inverse.antt =====
-- Two partial functions that are inverse to one another, under the updates of the handlers.
use safenet.Prelude.{ℕ, ◌≡◌, Option, none, some, arith, ◌==◌, if◌then◌else◌}

-- `f` takes a message to its session's signature id, `g` a signature id to its message.
pub record IsInverse (f g : ℕ → Option ℕ) : Type 0 where
  pub forth : (m x : ℕ) → f m ≡ some x → g x ≡ some m
  pub back : (m x : ℕ) → g x ≡ some m → f m ≡ some x

module _ (f g f' g' : ℕ → Option ℕ) (i : IsInverse f g) where
  pub IsInverse-same : ((m : ℕ) → f' m ≡ f m) → ((x : ℕ) → g' x ≡ g x) → IsInverse f' g'
  IsInverse-same hf hg = record {
    forth = λ m x h. ground (arith, hf m, hg x, i.forth m x);
    back = λ m x h. ground (arith, hf m, hg x, i.back m x);
  }

  pub IsInverse-link :
      (m x : ℕ)
      → f m ≡ none
      → g x ≡ none
      → ((j : ℕ) → f' j ≡ (if m == j then some x else f j))
      → ((y : ℕ) → g' y ≡ (if x == y then some m else g y))
      → IsInverse f' g'
  IsInverse-link m x fm gx hf hg = record {
    forth = λ j y h. ground (arith, hf j, hg y, i.forth j y);
    back = λ j y h. ground (arith, hf j, hg y, i.back j y);
  }

  pub IsInverse-unlink :
      (m x : ℕ)
      → f m ≡ some x
      → ((j : ℕ) → f' j ≡ (if m == j then none else f j))
      → ((y : ℕ) → g' y ≡ (if x == y then none else g y))
      → IsInverse f' g'
  IsInverse-unlink m x fm hf hg = record {
    forth = λ j y h. ground (arith, hf j, hg y, i.forth j y, i.forth m x);
    back = λ j y h. ground (arith, hf j, hg y, i.back j y, i.forth m x);
  }
