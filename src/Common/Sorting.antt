-- ===== src/Common/Sorting.antt =====
-- `ORDER BY`, as a stable insertion sort by a strict order on rows.
use Prim.Native.Nat.{ℕ, zero, suc, ◌≤◌}
use mathlib.Core.Path.{◌≡◌, refl, ap}
use mathlib.Core.Logic.{◌⊎◌, inl, inr}
use mathlib.Core.Bool.{Bool, true, false}
use mathlib.Core.List.{List, [], ◌∷◌, ◌++◌}
use mathlib.Core.List.Perm
use mathlib.Core.List.{Perm}
use native.Mathlib.Omega.{arith}
use postgres_pipeline_orches.Common.Tests.{if◌then◌else◌, Bool-cases}
use postgres_pipeline_orches.Common.Lists.{length, All, All-imp}

module _ {A : Type 0} (before : A → A → Bool) where
  abbrev pub insert_by : A → List A → List A
  insert_by x [] = x ∷ []
  insert_by x (y ∷ ys) = if before y x then y ∷ insert_by x ys else x ∷ y ∷ ys

  unfoldable pub order_by : List A → List A
  order_by [] = []
  order_by (x ∷ xs) = insert_by x (order_by xs)

  -- No row stands behind one that it must precede.
  abbrev pub IsOrdered : List A → Type 0
  IsOrdered [] = Unit {0}
  IsOrdered (x ∷ xs) = All (λ y. before y x ≡ false) xs × IsOrdered xs

  insert_by-perm : (x : A) (xs : List A) → Perm (insert_by x xs) (x ∷ xs)
  insert_by-perm x [] = Perm.refl _
  insert_by-perm x (y ∷ ys) = elim (Bool-cases (before y x)) [
    | inl t ↦ rw t (Perm.trans (Perm.cons y (insert_by-perm x ys)) (Perm.swap x y ys))
    | inr t ↦ rw t (Perm.refl _)
  ]

  pub order_by-perm : (xs : List A) → Perm (order_by xs) xs
  unfolding order_by
  order_by-perm [] = Perm.refl _
  order_by-perm (x ∷ xs) =
      Perm.trans (insert_by-perm x (order_by xs)) (Perm.cons x (order_by-perm xs))

  -- `before` is a strict order in which its incomparable rows are equals.
  pub record IsStrict : Type 0 where
    pub asymmetric : (a b : A) → before a b ≡ true → before b a ≡ false
    pub not_trans : (a b c : A) → before b a ≡ false → before c b ≡ false → before c a ≡ false

  module _ (s : IsStrict) where
    insert_by-All :
        (x y : A) (ys : List A)
        → before x y ≡ false
        → All (λ z. before z y ≡ false) ys
        → All (λ z. before z y ≡ false) (insert_by x ys)
    insert_by-All x y [] h k = (h, tt)
    insert_by-All x y (z ∷ zs) h k = elim (Bool-cases (before z x)) [
      | inl t ↦ rw t (k.0, insert_by-All x y zs h k.1)
      | inr t ↦ rw t (h, k)
    ]

    insert_by-IsOrdered : (x : A) (ys : List A) → IsOrdered ys → IsOrdered (insert_by x ys)
    insert_by-IsOrdered x [] o = (tt, tt)
    insert_by-IsOrdered x (y ∷ ys) o = elim (Bool-cases (before y x)) [
      | inl t ↦ rw t (insert_by-All x y ys (s.asymmetric y x t) o.0, insert_by-IsOrdered x ys o.1)
      | inr t ↦ rw t (
        (
          t,
          All-imp (λ z. before z y ≡ false) (λ z. before z x ≡ false) ys
              (λ z h. s.not_trans x y z t h) o.0,
        ),
        o,
      )
    ]

    pub order_by-IsOrdered : (xs : List A) → IsOrdered (order_by xs)
    unfolding order_by
    order_by-IsOrdered [] = tt
    order_by-IsOrdered (x ∷ xs) = insert_by-IsOrdered x (order_by xs) (order_by-IsOrdered xs)

module _ {A : Type 0} where
  -- `LIMIT n`, and what it leaves out.
  unfoldable pub limit : ℕ → List A → List A
  limit zero xs = []
  limit (suc n) [] = []
  limit (suc n) (x ∷ xs) = x ∷ limit n xs

  unfoldable pub beyond : ℕ → List A → List A
  beyond zero xs = xs
  beyond (suc n) [] = []
  beyond (suc n) (x ∷ xs) = beyond n xs

  pub limit-append-beyond : (n : ℕ) (xs : List A) → limit n xs ++ beyond n xs ≡ xs
  unfolding limit beyond
  limit-append-beyond zero xs = refl
  limit-append-beyond (suc n) [] = refl
  limit-append-beyond (suc n) (x ∷ xs) = ap (λ ys. x ∷ ys) (limit-append-beyond n xs)

  pub length-limit : (n : ℕ) (xs : List A) → length (limit n xs) ≤ n
  unfolding limit
  length-limit zero xs = omega arith
  length-limit (suc n) [] = omega arith
  length-limit (suc n) (x ∷ xs) = omega (arith, length-limit n xs)

  -- Rows are left out only behind a full page.
  pub beyond-limit : (n : ℕ) (xs : List A) → (beyond n xs ≡ []) ⊎ (length (limit n xs) ≡ n)
  unfolding limit beyond
  beyond-limit zero xs = inr refl
  beyond-limit (suc n) [] = inl refl
  beyond-limit (suc n) (x ∷ xs) = elim (beyond-limit n xs) [
    | inl e ↦ inl e
    | inr e ↦ inr (omega (arith, e))
  ]
