-- ===== src/Common/Totals.antt =====
-- Sums over the rows of a table, and how an update under a primary key lowers them.
use Prim.Native.Nat.{ℕ, ◌+◌, ◌<◌}
use mathlib.Core.Path.{◌≡◌, refl, sym, ap, subst}
use mathlib.Core.Logic.{◌≢◌, inl, inr}
use mathlib.Core.Bool.{true, false}
use mathlib.Core.List.{List, [], ◌∷◌, ◌++◌}
use native.Mathlib.Omega.{arith}
use postgres_pipeline_orches.Common.Tests.{◌==◌}
use postgres_pipeline_orches.Common.Lists.{Has, All, All-Has, update}
use postgres_pipeline_orches.Common.Keys.{UniqueKeys}

module _ {A : Type 0} where
  abbrev pub total : (A → ℕ) → List A → ℕ
  total m [] = 0
  total m (x ∷ xs) = m x + total m xs

  pub total-append : (m : A → ℕ) (xs ys : List A) → total m (xs ++ ys) ≡ total m xs + total m ys
  total-append m [] ys = omega arith
  total-append m (x ∷ xs) ys = omega (arith, total-append m xs ys)

  module _ (key : A → ℕ) (m : A → ℕ) (f : A → A) (k : A) where
    total-update_other :
        (xs : List A)
        → All (λ b. key k ≢ key b) xs
        → total m (update (λ a. key a == key k) f xs) ≡ total m xs
    total-update_other [] h = refl
    total-update_other (x ∷ xs) h = ground (arith, h.0, total-update_other xs h.1)

    -- An update of one row that lowers its measure lowers the sum.
    pub total-update :
        (xs : List A)
        → UniqueKeys key xs
        → Has k xs
        → m (f k) < m k
        → total m (update (λ a. key a == key k) f xs) < total m xs
    total-update [] u h l = absurd h
    total-update (x ∷ xs) u (inl e) l =
        let rest = total-update_other xs (subst (λ y. All (λ b. key y ≢ key b) xs) e u.0) in
        let t : (key x == key k) ≡ true = ground (arith, ap key e) in
        rw t (omega (arith, rest, subst (λ y. m (f y) < m y) (sym e) l))
    total-update (x ∷ xs) u (inr h) l =
        let ne : key x ≢ key k = All-Has (λ b. key x ≢ key b) xs k u.0 h in
        let t : (key x == key k) ≡ false = ground (arith, ne) in
        rw t (omega (arith, total-update xs u.1 h l))
