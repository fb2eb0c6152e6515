-- ===== src/Locks/Grants.antt =====
-- The advisory locks and the connections under one call: what stays held, and by whom.
use postgres_pipeline_orches.Common.{
  ℕ, ◌≡◌, refl, sym, ap, subst, ◌∙◌, ◌⊎◌, inl, inr, ◌≢◌, true, false, not, List, [], ◌∷◌, arith,
  ◌==◌, Has, All, any, any-false, select_complete, Bool-cases,
}
use postgres_pipeline_orches.Common.Keys.{UniqueKeys}
use postgres_pipeline_orches.Locks.{
  Locks, Grant, AcquireResult, acquired, busy, threw, conflicts, advisory_unlock, is_grant,
  check_in,
}
use postgres_pipeline_orches.Locks.System.{Holder, start_deploy}

abbrev pub session_of : Holder → ℕ
session_of h = h.session

-- What a call of `tryAcquire` leaves: a lock that is new and in conflict with none, or the locks as
-- they were; and the connection checked out only if the lock was acquired.
pub record Acquired (session : ℕ) (key : ℕ) (db : Locks) (r : Locks × AcquireResult) : Type 0 where
  pub locks :
      (r.0.granted ≡ db.granted) × (r.1 ≢ acquired)
      ⊎ (r.0.granted ≡ record { key = key; session = session } ∷ db.granted)
        × (any db.granted (conflicts key session) ≡ false)
  pub connection :
      (r.1 ≡ acquired) × (r.0.out ≡ session ∷ db.out)
      ⊎ (r.1 ≢ acquired) × (r.0.out ≡ check_in session (session ∷ db.out))

abbrev pub IsExclusive : List Grant → Type 0
IsExclusive gs = (a b : Grant) → Has a gs → Has b gs → a.key ≡ b.key → a.session ≡ b.session

conflict_free :
    (key session : ℕ) (g : Grant)
    → conflicts key session g ≡ false
    → g.key ≡ key
    → g.session ≡ session
conflict_free key session g h e = ground arith

pub cons-IsExclusive :
    (key session : ℕ) (gs : List Grant)
    → IsExclusive gs
    → any gs (conflicts key session) ≡ false
    → IsExclusive (record { key = key; session = session } ∷ gs)
cons-IsExclusive key session gs h c a b (inl p) (inl q) e =
    ap (λ (g : Grant). g.session) (sym p ∙ q)
cons-IsExclusive key session gs h c a b (inl p) (inr n) e =
    ground (arith, conflict_free key session b (any-false gs (conflicts key session) b c n))
cons-IsExclusive key session gs h c a b (inr m) (inl q) e =
    ground (arith, conflict_free key session a (any-false gs (conflicts key session) a c m))
cons-IsExclusive key session gs h c a b (inr m) (inr n) e = h a b m n e

pub Has-start :
    (o : AcquireResult) (h x : Holder) (hs : List Holder)
    → Has x (start_deploy o h hs)
    → (o ≡ acquired) × (h ≡ x) ⊎ Has x hs
Has-start acquired h x hs (inl e) = inl (refl, e)
Has-start acquired h x hs (inr m) = inr m
Has-start busy h x hs m = inr m
Has-start threw h x hs m = inr m

ne_test : (x y : ℕ) → x ≢ y → not (x == y) ≡ true
ne_test x y h = ground arith

pub Has-check_in :
    (session x : ℕ) (xs : List ℕ)
    → ¬ Has session xs
    → Has x xs
    → Has x (check_in session (session ∷ xs))
Has-check_in session x xs n m =
    select_complete (λ y. not (y == session)) (session ∷ xs) x (inr m)
      (ne_test x session (λ e. n (subst (λ y. Has y xs) e m)))

module _ (session key : ℕ) (db : Locks) (r : Locks × AcquireResult) (c : Acquired session key db r)
    (n : ¬ Has session db.out) where
  abbrev pub new_grant : Grant
  new_grant = record { key = key; session = session }

  pub granted_grows : (g : Grant) → Has g db.granted → Has g r.0.granted
  granted_grows g m = elim c.locks [ inl (e, _) ↦ rw e m | inr (e, _) ↦ rw e (inr m) ]

  pub granted_got : r.1 ≡ acquired → Has new_grant r.0.granted
  granted_got a = elim c.locks [ inl (_, ne) ↦ absurd (ne a) | inr (e, _) ↦ rw e (inl refl) ]

  pub granted_apart : IsExclusive db.granted → IsExclusive r.0.granted
  granted_apart h = elim c.locks [
    | inl (e, _) ↦ rw e h
    | inr (e, f) ↦ rw e (cons-IsExclusive key session db.granted h f)
  ]

  pub out_grows : (x : ℕ) → Has x db.out → Has x r.0.out
  out_grows x m = elim c.connection [
    | inl (_, e) ↦ rw e (inr m)
    | inr (_, e) ↦ rw e (Has-check_in session x db.out n m)
  ]

  pub out_got : r.1 ≡ acquired → Has session r.0.out
  out_got a = elim c.connection [ inl (_, e) ↦ rw e (inl refl) | inr (ne, _) ↦ absurd (ne a) ]

pub start-distinct :
    (o : AcquireResult) (h : Holder) (hs : List Holder)
    → All (λ x. h.session ≢ x.session) hs
    → UniqueKeys session_of hs
    → UniqueKeys session_of (start_deploy o h hs)
start-distinct acquired h hs a u = (a, u)
start-distinct busy h hs a u = u
start-distinct threw h hs a u = u

pub All-of_Has :
    (P : Holder → Type 0) (hs : List Holder) → ((x : Holder) → Has x hs → P x) → All P hs
All-of_Has P [] f = tt
All-of_Has P (x ∷ hs) f = (f x (inl refl), All-of_Has P hs (λ y m. f y (inr m)))

pub unlock-Has :
    (key session : ℕ) (gs : List Grant) (g : Grant)
    → Has g (advisory_unlock key session gs)
    → Has g gs
unfolding advisory_unlock
unlock-Has key session [] g m = m
unlock-Has key session (x ∷ gs) g m = elim (Bool-cases (is_grant key session x)) [
  | inl t ↦ inr (rw t at m)
  | inr t ↦
      let k : (x ≡ g) ⊎ Has g (advisory_unlock key session gs) = rw t at m in
      elim k [ inl e ↦ inl e | inr l ↦ inr (unlock-Has key session gs g l) ]
]

pub Has-unlock :
    (key session : ℕ) (gs : List Grant) (g : Grant)
    → g.session ≢ session
    → Has g gs
    → Has g (advisory_unlock key session gs)
unfolding advisory_unlock
Has-unlock key session [] g ne m = m
Has-unlock key session (x ∷ gs) g ne (inl e) = ground (arith, ap (λ (y : Grant). y.session) e)
Has-unlock key session (x ∷ gs) g ne (inr m) = elim (Bool-cases (is_grant key session x)) [
  | inl t ↦ rw t m
  | inr t ↦ rw t (inr (Has-unlock key session gs g ne m))
]
