-- ===== src/Common/Lists.antt =====
-- Tables as lists of rows: the tests `any` and `all`, `WHERE` as `select`, `UPDATE … WHERE` as
-- `update`, and the lemmas on them that the components share.
use Prim.Native.Nat.{ℕ, suc}
use mathlib.Core.Path.{◌≡◌, refl, ap, subst, ◌∙◌}
use mathlib.Core.Logic.{◌⊎◌, inl, inr}
use mathlib.Core.Bool.{Bool, true, false, not, ◌&&◌, ◌||◌}
use mathlib.Core.Option.{Option, none, some}
use mathlib.Core.List.{List, [], ◌∷◌, ◌++◌}
use native.Mathlib.Omega.{arith}
use postgres_pipeline_orches.Common.Tests.{if◌then◌else◌, Bool-cases}

module _ {ℓ} {A : Type ℓ} where
  abbrev pub length : List A → ℕ
  length [] = 0
  length (x ∷ xs) = suc (length xs)

  abbrev pub any : List A → (A → Bool) → Bool
  any [] p = false
  any (x ∷ xs) p = p x || any xs p

  abbrev pub all : List A → (A → Bool) → Bool
  all [] p = true
  all (x ∷ xs) p = p x && all xs p

  -- The rows that pass the test, in table order.
  abbrev pub select : (A → Bool) → List A → List A
  select p [] = []
  select p (x ∷ xs) = if p x then x ∷ select p xs else select p xs

  -- The first row that passes the test.
  abbrev pub find? : (A → Bool) → List A → Option A
  find? p [] = none
  find? p (x ∷ xs) = if p x then some x else find? p xs

  -- `UPDATE … SET f WHERE p`
  abbrev pub update : (A → Bool) → (A → A) → List A → List A
  update p f [] = []
  update p f (x ∷ xs) = (if p x then f x else x) ∷ update p f xs

  abbrev pub All {κ} : (A → Type κ) → List A → Type κ
  All P [] = Unit
  All P (x ∷ xs) = P x × All P xs

-- Membership by recursion, which the tactics read.
abbrev pub Has : {A : Type 0} → A → List A → Type 0
Has a [] = ⊥
Has a (x ∷ xs) = (x ≡ a) ⊎ Has a xs

module _ {A : Type 0} where
  -- A selected row is a row of the table that passes the test.
  pub select_sound :
      (p : A → Bool) (xs : List A) (a : A) → Has a (select p xs) → Has a xs × (p a ≡ true)
  select_sound p [] a h = absurd h
  select_sound p (x ∷ xs) a h = elim (Bool-cases (p x)) [
    | inl t ↦
        let m : (x ≡ a) ⊎ Has a (select p xs) = rw t at h in
        elim m [
          | inl e ↦ (inl e, rw (← e) t)
          | inr k ↦ (inr (select_sound p xs a k).0, (select_sound p xs a k).1)
        ]
    | inr t ↦
        let k : Has a (select p xs) = rw t at h in
        (inr (select_sound p xs a k).0, (select_sound p xs a k).1)
  ]

  pub select_complete :
      (p : A → Bool) (xs : List A) (a : A) → Has a xs → p a ≡ true → Has a (select p xs)
  select_complete p [] a h t = h
  select_complete p (x ∷ xs) a (inl e) t = rw (ap p e ∙ t) (inl e)
  select_complete p (x ∷ xs) a (inr m) t = elim (Bool-cases (p x)) [
    | inl y ↦ rw y (inr (select_complete p xs a m t))
    | inr n ↦ rw n (select_complete p xs a m t)
  ]

  pub select-eq-nil : (p : A → Bool) (xs : List A) → select p xs ≡ [] → any xs p ≡ false
  select-eq-nil p [] h = refl
  select-eq-nil p (x ∷ xs) h = ground (arith, select-eq-nil p xs)

  pub any-false : (xs : List A) (p : A → Bool) (a : A) → any xs p ≡ false → Has a xs → p a ≡ false
  any-false [] p a h m = absurd m
  any-false (x ∷ xs) p a h (inl e) = rw (← e) (ground arith)
  any-false (x ∷ xs) p a h (inr m) = any-false xs p a (ground arith) m

  pub any-true : (xs : List A) (p : A → Bool) (a : A) → Has a xs → p a ≡ true → any xs p ≡ true
  any-true [] p a m t = absurd m
  any-true (x ∷ xs) p a (inl e) t = rw (ap p e ∙ t)
  any-true (x ∷ xs) p a (inr m) t = ground (arith, any-true xs p a m t)

  pub any-Has : (xs : List A) (p : A → Bool) → any xs p ≡ true → (a : A) × Has a xs × (p a ≡ true)
  any-Has [] p h = cc
  any-Has (x ∷ xs) p h = elim (Bool-cases (p x)) [
    | inl t ↦ (x, inl refl, t)
    | inr t ↦ let (a, m, q) = any-Has xs p (ground (arith, h, t)) in (a, inr m, q)
  ]

  pub Has-update :
      (p : A → Bool) (f : A → A) (xs : List A) (a : A)
      → Has a xs
      → Has (if p a then f a else a) (update p f xs)
  Has-update p f [] a m = m
  Has-update p f (x ∷ xs) a (inl e) = inl (rw e)
  Has-update p f (x ∷ xs) a (inr m) = inr (Has-update p f xs a m)

  -- Every row of an updated table comes from a row of the table.
  pub update-Has :
      (p : A → Bool) (f : A → A) (xs : List A) (b : A)
      → Has b (update p f xs)
      → (a : A) × Has a xs × ((if p a then f a else a) ≡ b)
  update-Has p f [] b m = absurd m
  update-Has p f (x ∷ xs) b (inl e) = (x, inl refl, e)
  update-Has p f (x ∷ xs) b (inr m) = let (a, h, e) = update-Has p f xs b m in (a, inr h, e)

  pub All-Has {κ} : (P : A → Type κ) (xs : List A) (a : A) → All P xs → Has a xs → P a
  All-Has P [] a h m = absurd m
  All-Has P (x ∷ xs) a h (inl e) = subst P e h.0
  All-Has P (x ∷ xs) a h (inr m) = All-Has P xs a h.1 m

  pub All-update {κ μ} :
      (P : A → Type κ) (Q : A → Type μ) (p : A → Bool) (f : A → A) (xs : List A)
      → ((x : A) → P x → Q (if p x then f x else x))
      → All P xs
      → All Q (update p f xs)
  All-update P Q p f [] step h = tt
  All-update P Q p f (x ∷ xs) step h = (step x h.0, All-update P Q p f xs step h.1)

  pub All-imp {κ μ} :
      (P : A → Type κ) (Q : A → Type μ) (xs : List A) → ((x : A) → P x → Q x) → All P xs → All Q xs
  All-imp P Q [] step h = tt
  All-imp P Q (x ∷ xs) step h = (step x h.0, All-imp P Q xs step h.1)

  pub Has-append : (xs ys : List A) (a : A) → Has a (xs ++ ys) → Has a xs ⊎ Has a ys
  Has-append [] ys a m = inr m
  Has-append (x ∷ xs) ys a (inl e) = inl (inl e)
  Has-append (x ∷ xs) ys a (inr m) = elim (Has-append xs ys a m) [
    | inl k ↦ inl (inr k)
    | inr k ↦ inr k
  ]

  pub Has-append_left : (xs ys : List A) (a : A) → Has a xs → Has a (xs ++ ys)
  Has-append_left [] ys a m = absurd m
  Has-append_left (x ∷ xs) ys a (inl e) = inl e
  Has-append_left (x ∷ xs) ys a (inr m) = inr (Has-append_left xs ys a m)

  pub Has-append_right : (xs ys : List A) (a : A) → Has a ys → Has a (xs ++ ys)
  Has-append_right [] ys a m = m
  Has-append_right (x ∷ xs) ys a m = inr (Has-append_right xs ys a m)

  -- Tests over a changed table.
  pub any-update :
      (p : A → Bool) (f : A → A) (xs : List A) (q : A → Bool)
      → ((x : A) → q (f x) ≡ q x)
      → any (update p f xs) q ≡ any xs q
  any-update p f [] q same = refl
  any-update p f (x ∷ xs) q same = elim (Bool-cases (p x)) [
    | inl t ↦ rw (t, same x, any-update p f xs q same) refl
    | inr t ↦ rw (t, any-update p f xs q same) refl
  ]

  pub any-append : (xs ys : List A) (q : A → Bool) → any (xs ++ ys) q ≡ (any xs q || any ys q)
  any-append [] ys q = refl
  any-append (x ∷ xs) ys q = ground (arith, any-append xs ys q)

  pub any-select :
      (p : A → Bool) (xs : List A) (q : A → Bool)
      → ((x : A) → q x ≡ true → p x ≡ true)
      → any (select p xs) q ≡ any xs q
  any-select p [] q all = refl
  any-select p (x ∷ xs) q all = ground (arith, all x, any-select p xs q all)

  pub any-partition :
      (p : A → Bool) (xs : List A) (q : A → Bool)
      → any xs q ≡ (any (select p xs) q || any (select (λ x. not (p x)) xs) q)
  any-partition p [] q = refl
  any-partition p (x ∷ xs) q = ground (arith, any-partition p xs q)

  pub All-append {κ} : (P : A → Type κ) (xs ys : List A) → All P xs → All P ys → All P (xs ++ ys)
  All-append P [] ys h k = k
  All-append P (x ∷ xs) ys h k = (h.0, All-append P xs ys h.1 k)

  pub All-select {κ μ} :
      (P : A → Type κ) (Q : A → Type μ) (p : A → Bool) (xs : List A)
      → ((x : A) → p x ≡ true → P x → Q x)
      → All P xs
      → All Q (select p xs)
  All-select P Q p [] step h = tt
  All-select P Q p (x ∷ xs) step h = elim (Bool-cases (p x)) [
    | inl t ↦ rw t (step x t h.0, All-select P Q p xs step h.1)
    | inr t ↦ rw t (All-select P Q p xs step h.1)
  ]
