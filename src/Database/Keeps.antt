-- ===== src/Database/Keeps.antt =====
-- Invariants of effects: a rule for each way to build one. A throw keeps them too, so what holds
-- before a job holds after it, however it ends.
use code_host.Prelude.Result.{Result, ok, err}
use code_host.Database.Tables.{World}
use code_host.Database.Effects.{
  Fault, Effect, continue, settle, transaction, rethrow_after, recover, ◌>>=◌,
}

module _ {ℓ} {A : Type ℓ} (P : World → Type 0) where
  pub settle-keeps :
      (r : Result Fault A) {before after : World} → P before → P after → P (settle before r after).1
  settle-keeps (ok a) b c = c
  settle-keeps (err e) b c = b

  pub transaction-keeps :
      (m : Effect A) → ((w : World) → P w → P (m w).1) → (w : World) → P w → P (transaction m w).1
  transaction-keeps m keeps w p = settle-keeps (m w).0 p (keeps w p)

  pub rethrow_after-keeps :
      (m : Effect A) (handler : Effect (Unit {0}))
      → ((w : World) → P w → P (m w).1)
      → ((w : World) → P w → P (handler w).1)
      → (w : World) → P w
      → P (rethrow_after m handler w).1
  rethrow_after-keeps m handler keeps handles w p = after (m w).0 (keeps w p)
    where
      after : (r : Result Fault A) → P (m w).1 → P (rethrow_after (λ v. (r, (m w).1)) handler w).1
      after (ok a) q = q
      after (err e) q = handles (m w).1 q

module _ {ℓ} {A : Type ℓ} (P : World → Type 0) where
  pub recover-keeps :
      (m : Effect A) (handler : Fault → Effect A)
      → ((w : World) → P w → P (m w).1)
      → ((e : Fault) (w : World) → P w → P (handler e w).1)
      → (w : World) → P w
      → P (recover m handler w).1
  recover-keeps m handler keeps handles w p = after (m w).0 (keeps w p)
    where
      after : (r : Result Fault A) → P (m w).1 → P (recover (λ v. (r, (m w).1)) handler w).1
      after (ok a) q = q
      after (err e) q = handles e (m w).1 q

module _ {ℓ κ} {A : Type ℓ} {B : Type κ} (P : World → Type 0) where
  pub continue-keeps :
      (r : Result Fault A) (f : A → Effect B) (w : World)
      → P w
      → ((a : A) (v : World) → P v → P (f a v).1)
      → P (continue r f w).1
  continue-keeps (ok a) f w p keeps = keeps a w p
  continue-keeps (err e) f w p keeps = p

  pub bind-keeps :
      (m : Effect A) (f : A → Effect B)
      → ((w : World) → P w → P (m w).1)
      → ((a : A) (w : World) → P w → P (f a w).1)
      → (w : World) → P w
      → P ((m >>= f) w).1
  bind-keeps m f keeps rest w p = continue-keeps (m w).0 f (m w).1 (keeps w p) rest
