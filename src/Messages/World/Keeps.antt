-- ===== src/Messages/World/Keeps.antt =====
-- Proof rules for the operations of the messages component: an operation keeps a property of the
-- tables whatever its outcome is, and a successful chain of steps is taken apart.
use at_gateway.Prelude.{arith, refl, ◌≢◌, ◌∙◌, ◌≡◌, Bool-cases, inl, inr}
use at_gateway.Messages.Result.{Result, ok, err, panic}
use at_gateway.Messages.Rows.{Db}
use at_gateway.Messages.World.{
  Env, World, M, then_run, ◌>>=◌, lift, tick, statement, in_tx, close_tx,
}

-- Whatever the operation answers, the property of the tables survives it.
pub Keeps {ℓ} : {A : Type 0} → (Db → Type ℓ) → M A → Type ℓ
Keeps P m = (w : World) → P w.db → P (m w).1.db

module _ {ℓ} {A : Type 0} (P : Db → Type ℓ) where
  -- The operation run in a world where the property holds.
  pub Keeps-run : (m : M A) → Keeps P m → (w : World) → P w.db → P (m w).1.db
  unfolding Keeps
  Keeps-run m k w h = k w h

  -- An operation that leaves the tables alone.
  pub Keeps-same : (m : M A) → ((w : World) → (m w).1.db ≡ w.db) → Keeps P m
  unfolding Keeps
  Keeps-same m e w h = rw (e w) h

  -- An `ok` or an error that is at hand.
  pub Keeps-lift : (r : Result A) → Keeps P (lift r)
  unfolding Keeps
  Keeps-lift r w h = h

  pub Keeps-statement :
      (env : Env) (f : Db → Result A × Db)
      → ((db : Db) → P db → P (f db).1)
      → Keeps P (statement env f)
  unfolding Keeps
  Keeps-statement env f keep w h = elim (Bool-cases (env.fault w.steps)) [
    | inl bad ↦ rw bad h
    | inr good ↦ rw good (keep w.db h)
  ]

  close_keeps :
      (env : Env) (saved : Db) (r : Result A × World)
      → P saved
      → P r.1.db
      → P (close_tx env saved r).1.db
  close_keeps env saved (ok a, w) hs h = elim (Bool-cases (env.fault w.steps)) [
    | inl bad ↦ rw bad hs
    | inr good ↦ rw good h
  ]
  close_keeps env saved (err e, w) hs h = hs
  close_keeps env saved (panic, w) hs h = hs

  -- A transaction that fails restores the tables, so the rollback is covered too.
  pub Keeps-in_tx : (env : Env) (body : M A) → Keeps P body → Keeps P (in_tx env body)
  unfolding Keeps
  Keeps-in_tx env body k w h = elim (Bool-cases (env.fault w.steps)) [
    | inl bad ↦ rw bad h
    | inr good ↦ rw good (close_keeps env w.db (body (tick w)) h (k (tick w) h))
  ]

module _ {ℓ} {A B : Type 0} (P : Db → Type ℓ) where
  then_run_keeps :
      (f : A → M B) (r : Result A × World)
      → ((a : A) → (w : World) → P w.db → P (f a w).1.db)
      → P r.1.db
      → P (then_run r f).1.db
  then_run_keeps f (ok a, w) k h = k a w h
  then_run_keeps f (err e, w) k h = h
  then_run_keeps f (panic, w) k h = h

  pub Keeps-bind :
      (m : M A) (f : A → M B) → Keeps P m → ((a : A) → Keeps P (f a)) → Keeps P (m >>= f)
  unfolding Keeps
  Keeps-bind m f km kf w h = then_run_keeps f (m w) kf (km w h)

-- A successful chain taken apart.
pub bind-eq-ok :
    {A B : Type 0} (m : M A) (f : A → M B) (w : World) {b : B} {v : World}
    → (m >>= f) w ≡ (ok b, v)
    → (a : A) × (u : World) × (m w ≡ (ok a, u)) × (f a u ≡ (ok b, v))
bind-eq-ok {A} {B} m f w {b} {v} e = go (m w) refl e
  where
    go :
        (r : Result A × World)
        → m w ≡ r
        → then_run r f ≡ (ok b, v)
        → (a : A) × (u : World) × (m w ≡ (ok a, u)) × (f a u ≡ (ok b, v))
    go (ok a, u) d e = (a, u, d, e)
    go (err x, u) d e = cc
    go (panic, u) d e = cc

pub statement-eq-ok :
    {A : Type 0} (env : Env) (f : Db → Result A × Db) (w : World) {a : A} {v : World}
    → statement env f w ≡ (ok a, v)
    → ((f w.db).0 ≡ ok a) × (v.db ≡ (f w.db).1)
statement-eq-ok env f w e = elim (Bool-cases (env.fault w.steps)) [
  | inl bad ↦ absurd (ground arith)
  | inr good ↦ ground arith
]

pub in_tx-eq-ok :
    {A : Type 0} (env : Env) (body : M A) (w : World) {a : A} {v : World}
    → in_tx env body w ≡ (ok a, v)
    → (u : World) × (body (tick w) ≡ (ok a, u)) × (v.db ≡ u.db)
in_tx-eq-ok {A} env body w {a} {v} e = elim (Bool-cases (env.fault w.steps)) [
  | inl bad ↦ absurd (ground arith)
  | inr good ↦ go (body (tick w)) refl (rw good at e)
]
  where
    go :
        (r : Result A × World)
        → body (tick w) ≡ r
        → close_tx env w.db r ≡ (ok a, v)
        → (u : World) × (body (tick w) ≡ (ok a, u)) × (v.db ≡ u.db)
    go (ok b, u) d e = elim (Bool-cases (env.fault u.steps)) [
      | inl bad ↦ absurd (ground arith)
      | inr good ↦ (u, d ∙ ground arith, ground arith)
    ]
    go (err x, u) d e = cc
    go (panic, u) d e = cc

-- A transaction that does not succeed leaves the tables as they were.
pub in_tx-failed :
    {A : Type 0} (env : Env) (body : M A) (w : World)
    → ((a : A) → (in_tx env body w).0 ≢ ok a)
    → (in_tx env body w).1.db ≡ w.db
in_tx-failed {A} env body w no_result = elim (Bool-cases (env.fault w.steps)) [
  | inl bad ↦ rw bad
  | inr good ↦ rw good (go (body (tick w)) (rw good at no_result))
]
  where
    go :
        (r : Result A × World)
        → ((a : A) → (close_tx env w.db r).0 ≢ ok a)
        → (close_tx env w.db r).1.db ≡ w.db
    go (ok b, u) n = elim (Bool-cases (env.fault u.steps)) [
      | inl bad ↦ rw bad
      | inr good ↦ absurd (n b (rw good))
    ]
    go (err x, u) n = refl
    go (panic, u) n = refl
