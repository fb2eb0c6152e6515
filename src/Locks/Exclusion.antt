-- ===== src/Locks/Exclusion.antt =====
-- Mutual exclusion of deploys, over any interleaving of workers and any failures of their queries.
use postgres_pipeline_orches.Common.{
  ℕ, ◌≡◌, sym, subst, ◌⊎◌, inl, inr, ◌≢◌, not, Option, arith, ◌==◌, Has, select_sound,
  select_complete,
}
use postgres_pipeline_orches.Common.Text.{Text}
use postgres_pipeline_orches.Common.Keys.{UniqueKeys, select-UniqueKeys, eq_of_key}
use postgres_pipeline_orches.Locks.{
  Locks, Grant, Queries, key_of, advisory_unlock, try_acquire, release, check_in,
}
use postgres_pipeline_orches.Locks.System.{
  Holder, System, after_acquire, after_finish, Step, acquire, finish, Reach, start, later,
}
use postgres_pipeline_orches.Locks.Grants.{
  session_of, Acquired, Has-start, granted_grows, granted_got, granted_apart, out_grows, out_got,
  start-distinct, All-of_Has, unlock-Has, Has-unlock,
}

module _ (hashtext : Text → ℕ) where
  abbrev grant_of : Holder → Grant
  grant_of h = record { key = key_of hashtext h.environment; session = h.session }

  record Inv (s : System) : Type 0 where
    exclusive :
        (a b : Grant)
        → Has a s.locks.granted
        → Has b s.locks.granted
        → a.key ≡ b.key
        → a.session ≡ b.session
    backed : (h : Holder) → Has h s.holders → Has (grant_of h) s.locks.granted
    kept_out : (h : Holder) → Has h s.holders → Has h.session s.locks.out
    distinct : UniqueKeys session_of s.holders

  try_acquire-Acquired :
      (q : Queries) (session now : ℕ) (environment : Text) (run : Option ℕ) (db : Locks)
      → Acquired session
          (key_of hashtext environment)
          db
          (try_acquire hashtext q session now environment run db)
  unfolding try_acquire
  try_acquire-Acquired q session now environment run db = ground arith

  acquire-Inv :
      (q : Queries) (session now : ℕ) (environment : Text) (run : Option ℕ) (s : System)
      → ¬ Has session s.locks.out
      → Inv s
      → Inv (after_acquire hashtext q session now environment run s)
  acquire-Inv q session now environment run s n i =
      let db = s.locks in
      let r = try_acquire hashtext q session now environment run db in
      let c = try_acquire-Acquired q session now environment run db in
      let key = key_of hashtext environment in
      let new : Holder = record { session = session; environment = environment } in
      record {
        exclusive = granted_apart session key db r c n i.exclusive;
        backed = λ h m. elim (Has-start r.1 new h s.holders m) [
          | inl (a, e) ↦
              subst (λ x. Has (grant_of x) r.0.granted) e (granted_got session key db r c n a)
          | inr k ↦ granted_grows session key db r c n (grant_of h) (i.backed h k)
        ];
        kept_out = λ h m. elim (Has-start r.1 new h s.holders m) [
          | inl (a, e) ↦
              subst (λ (x : Holder). Has x.session r.0.out) e (out_got session key db r c n a)
          | inr k ↦ out_grows session key db r c n h.session (i.kept_out h k)
        ];
        distinct =
            start-distinct r.1 new s.holders
              (All-of_Has (λ x. session ≢ x.session) s.holders
                (λ x m e. n (subst (λ y. Has y db.out) (sym e) (i.kept_out x m))))
              i.distinct;
      }

  release_effect :
      (q : Queries) (session : ℕ) (environment : Text) (db : Locks)
      → let r = (release hashtext q session environment db).0 in
        ((r.granted ≡ db.granted)
          ⊎ (r.granted ≡ advisory_unlock (key_of hashtext environment) session db.granted))
        × (r.out ≡ check_in session db.out)
  unfolding release
  release_effect q session environment db = ground arith

  finish-Inv :
      (q : Queries) (h : Holder) (s : System)
      → Has h s.holders
      → Inv s
      → Inv (after_finish hashtext q h s)
  finish-Inv q h s m i =
      let key = key_of hashtext h.environment in
      let db = s.locks in
      let r = (release hashtext q h.session h.environment db).0 in
      let (g, o) = release_effect q h.session h.environment db in
      let fewer : (x : Grant) → Has x r.granted → Has x db.granted = λ x k. elim g [
        | inl e ↦ rw e at k
        | inr e ↦ unlock-Has key h.session db.granted x (rw e at k)
      ] in
      let keeps : (x : Grant) → x.session ≢ h.session → Has x db.granted → Has x r.granted =
        λ x ne k. elim g [
          | inl e ↦ rw e k
          | inr e ↦ rw e (Has-unlock key h.session db.granted x ne k)
        ] in
      record {
        exclusive = λ a b ma mb. i.exclusive a b (fewer a ma) (fewer b mb);
        backed = λ x k.
            let (l, t) = select_sound (λ y. not (y.session == h.session)) s.holders x k in
            keeps (grant_of x) (ground arith) (i.backed x l);
        kept_out = λ x k.
            let (l, t) = select_sound (λ y. not (y.session == h.session)) s.holders x k in
            rw o (select_complete (λ y. not (y == h.session)) db.out x.session (i.kept_out x l) t);
        distinct = select-UniqueKeys session_of _ s.holders i.distinct;
      }

  Step-Inv : {s t : System} → Step hashtext s t → Inv s → Inv t
  Step-Inv {s} (acquire q session now environment run n) i =
      acquire-Inv q session now environment run s n i
  Step-Inv {s} (finish q h m) i = finish-Inv q h s m i

  Reach-Inv : {s : System} → Reach hashtext s → Inv s
  Reach-Inv start = record {
    exclusive = λ a b m. absurd m;
    backed = λ h m. absurd m;
    kept_out = λ h m. absurd m;
    distinct = tt;
  }
  Reach-Inv (later r st) = Step-Inv st (Reach-Inv r)

  -- In every reachable state two deploys under way to environments with the same lock key, the same
  -- environment in particular, are one deploy; also after queries that threw.
  pub one_deploy :
      {s : System}
      → Reach hashtext s
      → (h h' : Holder) → Has h s.holders
      → Has h' s.holders
      → key_of hashtext h.environment ≡ key_of hashtext h'.environment
      → h ≡ h'
  one_deploy {s} r h h' m m' e =
      let i = Reach-Inv r in
      eq_of_key session_of s.holders h h' i.distinct m m'
        (i.exclusive (grant_of h) (grant_of h') (i.backed h m) (i.backed h' m') e)
