-- ===== src/Db/Reaches.antt =====
-- Postconditions of an action: what holds when it returned, and an invariant that holds when it raised.
use steh_v1_0_0_rc.Base.{◌≡◌, refl, Result, ok, err}
use steh_v1_0_0_rc.Db.{Session, Exec, ◌>>=◌, then_do}
use steh_v1_0_0_rc.Db.Keeps.{Keeps}

abbrev pub Post {ℓ} :
    {A : Type ℓ} → (Session → Type 0) → (Session → Type 0) → Result A × Session → Type 0
Post P Q (ok a, s) = Q s
Post P Q (err e, s) = P s

pub record Reaches {ℓ} {A : Type ℓ} (P Q : Session → Type 0) (m : Exec A) : Type 0 where
  pub after : (s : Session) → P s → Post P Q (m s)

module _ {P Q : Session → Type 0} where
  pub bind-Reaches {ℓ κ} :
      {A : Type ℓ} {B : Type κ} (m : Exec A) (f : A → Exec B)
      → Keeps P m
      → ((a : A) (s t : Session) → m s ≡ (ok a, t) → Reaches P Q (f a))
      → Reaches P Q (m >>= f)
  bind-Reaches {A} {B} m f k l = record { after = λ s h. go s (m s) refl (k.after s h) }
    where
      go : (s : Session) (p : Result A × Session) → m s ≡ p → P p.1 → Post P Q (then_do f p)
      go s (ok a, t) e h = (l a s t e).after t h
      go s (err e, t) _ h = h
