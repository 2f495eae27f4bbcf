-- ===== src/Common/Jobs.antt =====
-- A job that runs against a storage and may throw: what it wrote before a throw stays written.
use mathlib.Core.Bool.{Bool, true, false}
use mathlib.Core.Option.{Option, none, some}
use libsignal_node.Common.Exec.{SignalError, Result, ok, err}

abbrev pub Job : Type 0 → Type 0 → Type 0
Job W A = W → Result A × W

module _ {W A : Type 0} where
  abbrev pub pure : A → Job W A
  pure a w = (ok a, w)

  abbrev pub throw : SignalError → Job W A
  throw e w = (err e, w)

  abbrev pub lift : Result A → Job W A
  lift r w = (r, w)

  abbrev pub gets : (W → A) → Job W A
  gets f w = (ok (f w), w)

abbrev pub modify : {W : Type 0} → (W → W) → Job W (Unit {0})
modify f w = (ok tt, f w)

module _ {W A B : Type 0} where
  abbrev pub continue : Result A → (A → Job W B) → Job W B
  continue (ok a) f w = f a w
  continue (err e) f w = (err e, w)

  infixl 5 ◌>>=◌
  abbrev pub ◌>>=◌ : Job W A → (A → Job W B) → Job W B
  ◌>>=◌ m f w = let (r, w') = m w in continue r f w'

module _ {W B : Type 0} where
  infixl 5 ◌>>◌
  abbrev pub ◌>>◌ : Job W (Unit {0}) → Job W B → Job W B
  m >> k = m >>= λ _. k

abbrev pub or_throw : {W A : Type 0} → Option A → SignalError → Job W A
or_throw (some a) e w = (ok a, w)
or_throw none e w = (err e, w)

abbrev pub require : {W : Type 0} → Bool → SignalError → Job W (Unit {0})
require true e w = (ok tt, w)
require false e w = (err e, w)
