-- ===== src/Db/Keeps.antt =====
-- Invariants of a session through an action, however the action ends.
use steh_v1_0_0_rc.Base.{Bool, true, false, Result, ok, err, Error, if◌then◌else◌}
use steh_v1_0_0_rc.Db.{
  Session, Exec, ◌>>=◌, then_do, or_else, pure, lift, raise, catch, attempt, gets, Tables,
}

pub record Keeps {ℓ} {A : Type ℓ} (P : Session → Type 0) (m : Exec A) : Type 0 where
  pub after : (s : Session) → P s → P (m s).1

module _ {P : Session → Type 0} where
  pub pure-Keeps {ℓ} : {A : Type ℓ} (a : A) → Keeps P (pure a)
  pure-Keeps a = record { after = λ s h. h }

  pub lift-Keeps {ℓ} : {A : Type ℓ} (r : Result A) → Keeps P (lift r)
  lift-Keeps r = record { after = λ s h. h }

  pub raise-Keeps {ℓ} : {A : Type ℓ} (e : Error) → Keeps P (raise {A = A} e)
  raise-Keeps e = record { after = λ s h. h }

  pub gets-Keeps {ℓ} : {A : Type ℓ} (f : Tables → A) → Keeps P (gets f)
  gets-Keeps f = record { after = λ s h. h }

  pub bind-Keeps {ℓ κ} :
      {A : Type ℓ} {B : Type κ} (m : Exec A) (f : A → Exec B)
      → Keeps P m
      → ((a : A) → Keeps P (f a))
      → Keeps P (m >>= f)
  bind-Keeps {A} {B} m f k l = record { after = λ s h. go (m s) (k.after s h) }
    where
      go : (p : Result A × Session) → P p.1 → P (then_do f p).1
      go (ok a, t) h = (l a).after t h
      go (err e, t) h = h

  pub catch-Keeps {ℓ} :
      {A : Type ℓ} (m : Exec A) (f : Error → Exec A)
      → Keeps P m
      → ((e : Error) → Keeps P (f e))
      → Keeps P (catch m f)
  catch-Keeps {A} m f k l = record { after = λ s h. go (m s) (k.after s h) }
    where
      go : (p : Result A × Session) → P p.1 → P (or_else f p).1
      go (ok a, t) h = h
      go (err e, t) h = (l e).after t h

  pub attempt-Keeps {ℓ} : {A : Type ℓ} (m : Exec A) → Keeps P m → Keeps P (attempt m)
  attempt-Keeps m k = record { after = λ s h. k.after s h }

  pub if-Keeps {ℓ} :
      {A : Type ℓ} (b : Bool) (m n : Exec A) → Keeps P m → Keeps P n → Keeps P (if b then m else n)
  if-Keeps true m n k l = k
  if-Keeps false m n k l = l
