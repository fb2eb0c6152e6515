-- ===== src/Common/Keys.antt =====
-- A table under its primary key: selecting, updating and inserting by the key of a row.
use Prim.Native.Nat.{ℕ}
use mathlib.Core.Path.{◌≡◌, refl, sym, ap, subst, ◌∙◌}
use mathlib.Core.Logic.{◌≢◌, inl, inr}
use mathlib.Core.Bool.{Bool}
use mathlib.Core.List.{List, [], ◌∷◌, ◌++◌}
use native.Mathlib.Omega.{arith}
use postgres_pipeline_orches.Common.Tests.{◌==◌, Bool-cases}
use postgres_pipeline_orches.Common.Lists.{Has, All, All-Has, select, update}

module _ {A : Type 0} where
  All-select : (P : A → Type 0) (p : A → Bool) (xs : List A) → All P xs → All P (select p xs)
  All-select P p [] h = tt
  All-select P p (x ∷ xs) h = elim (Bool-cases (p x)) [
    | inl t ↦ rw t (h.0, All-select P p xs h.1)
    | inr t ↦ rw t (All-select P p xs h.1)
  ]

module _ {A : Type 0} (key : A → ℕ) where
  -- The primary key: no two rows have the same key.
  abbrev pub UniqueKeys : List A → Type 0
  UniqueKeys [] = Unit {0}
  UniqueKeys (a ∷ rest) = All (λ b. key a ≢ key b) rest × UniqueKeys rest

  abbrev pub has_key : ℕ → A → Bool
  has_key i a = key a == i

  select-has_key_none : (i : ℕ) (xs : List A) → All (λ b. i ≢ key b) xs → select (has_key i) xs ≡ []
  select-has_key_none i [] h = refl
  select-has_key_none i (x ∷ xs) h = ground (arith, select-has_key_none i xs h.1)

  pub select-has_key :
      (xs : List A) (i : ℕ) (k : A)
      → UniqueKeys xs
      → Has k xs
      → key k ≡ i
      → select (has_key i) xs ≡ k ∷ []
  select-has_key [] i k u m q = absurd m
  select-has_key (x ∷ xs) i k u (inl e) q =
      let s : key x ≡ i = ap key e ∙ q in
      rw (← e)
        (ground (arith, select-has_key_none i xs (subst (λ n. All (λ b. n ≢ key b) xs) s u.0)))
  select-has_key (x ∷ xs) i k u (inr m) q =
      let ne : key x ≢ key k = All-Has (λ b. key x ≢ key b) xs k u.0 m in
      ground (arith, select-has_key xs i k u.1 m)

  -- A row is known by its key.
  pub eq_of_key :
      (xs : List A) (a b : A) → UniqueKeys xs → Has a xs → Has b xs → key a ≡ key b → a ≡ b
  eq_of_key [] a b u m n e = absurd m
  eq_of_key (x ∷ xs) a b u (inl p) (inl q) e = sym p ∙ q
  eq_of_key (x ∷ xs) a b u (inl p) (inr n) e =
      absurd (All-Has (λ c. key x ≢ key c) xs b u.0 n (ap key p ∙ e))
  eq_of_key (x ∷ xs) a b u (inr m) (inl q) e =
      absurd (All-Has (λ c. key x ≢ key c) xs a u.0 m (ap key q ∙ sym e))
  eq_of_key (x ∷ xs) a b u (inr m) (inr n) e = eq_of_key xs a b u.1 m n e

  All-update_ne :
      (i : ℕ) (p : A → Bool) (f : A → A) (xs : List A)
      → ((a : A) → key (f a) ≡ key a)
      → All (λ b. i ≢ key b) xs
      → All (λ b. i ≢ key b) (update p f xs)
  All-update_ne i p f [] same h = tt
  All-update_ne i p f (x ∷ xs) same h = ground (arith, same x, All-update_ne i p f xs same h.1)

  -- An update that keeps the keys keeps them distinct.
  pub update-UniqueKeys :
      (p : A → Bool) (f : A → A) (xs : List A)
      → ((a : A) → key (f a) ≡ key a)
      → UniqueKeys xs
      → UniqueKeys (update p f xs)
  update-UniqueKeys p f [] same u = tt
  update-UniqueKeys p f (x ∷ xs) same u = elim (Bool-cases (p x)) [
    | inl t ↦
        rw t (
          All-update_ne (key (f x)) p f xs same (rw (same x) u.0),
          update-UniqueKeys p f xs same u.1,
        )
    | inr t ↦ rw t (All-update_ne (key x) p f xs same u.0, update-UniqueKeys p f xs same u.1)
  ]

  pub insert-UniqueKeys :
      (xs : List A) (j : A)
      → ((a : A) → Has a xs → key a ≢ key j)
      → UniqueKeys xs
      → UniqueKeys (xs ++ j ∷ [])
  insert-UniqueKeys [] j fresh u = (tt, tt)
  insert-UniqueKeys (x ∷ xs) j fresh u =
      (last xs u.0, insert-UniqueKeys xs j (λ b m. fresh b (inr m)) u.1)
    where
      last : (ks : List A) → All (λ k. key x ≢ key k) ks → All (λ k. key x ≢ key k) (ks ++ j ∷ [])
      last [] h = (fresh x (inl refl), tt)
      last (k ∷ ks) h = (h.0, last ks h.1)

  pub select-UniqueKeys : (p : A → Bool) (xs : List A) → UniqueKeys xs → UniqueKeys (select p xs)
  select-UniqueKeys p [] u = tt
  select-UniqueKeys p (x ∷ xs) u = elim (Bool-cases (p x)) [
    | inl t ↦ rw t (All-select (λ b. key x ≢ key b) p xs u.0, select-UniqueKeys p xs u.1)
    | inr t ↦ rw t (select-UniqueKeys p xs u.1)
  ]
