-- ===== src/Common/Exec.antt =====
-- Errors (src/errors.ts and JavaScript's own), results, and code that mutates a state and may throw.
-- What was written before a throw stays written, so the state comes back beside the error too.
use Prim.Native.Nat.{ℕ}
use Prim.Native.String.{String}
use mathlib.Core.Path.{◌≡◌, refl}
use mathlib.Core.Bool.{Bool, true, false}
use mathlib.Core.Logic.{◌⊎◌, inl, inr}
use mathlib.Core.Option.{Option, none, some}
use libsignal_node.Common.Lists.{Bytes}
use libsignal_node.Common.Int.{ℤ}

pub data SignalError : Type 0 where
  untrusted_identity_key : String → Bytes → Option Bytes → SignalError
  session_error message_counter_error pre_key_error sender_key_error : String → SignalError
  plain_error type_error reference_error range_error : String → SignalError
  -- The errors of the file storage: the lock, the revision expected and the one found (-1 is none),
  -- a file that may be recovered from its backup, and a format of a later build.
  storage_lock_error corrupt_storage_file unsupported_format_version : String → SignalError
  storage_conflict_error : ℕ → ℤ → SignalError

pub data Result {ℓ} (A : Type ℓ) : Type ℓ where
  err : SignalError → Result A
  ok : A → Result A

module _ {ℓ κ} {A : Type ℓ} {B : Type κ} where
  infixl 5 ◌>>=◌
  abbrev pub ◌>>=◌ : Result A → (A → Result B) → Result B
  err e >>= k = err e
  ok a >>= k = k a

module _ {κ} {B : Type κ} where
  infixl 5 ◌>>◌
  abbrev pub ◌>>◌ : Result (Unit {0}) → Result B → Result B
  first >> next = first >>= λ _. next

-- `if (!test) throw e`
abbrev pub require : Bool → SignalError → Result (Unit {0})
require true e = ok tt
require false e = err e

abbrev pub or_throw {ℓ} : {A : Type ℓ} → Option A → SignalError → Result A
or_throw (some a) e = ok a
or_throw none e = err e

pub require-eq-ok : (b : Bool) (e : SignalError) {u : Unit {0}} → require b e ≡ ok u → b ≡ true
require-eq-ok true e h = refl
require-eq-ok false e h = cc

pub or_throw-eq-ok {ℓ} :
    {A : Type ℓ} (o : Option A) (e : SignalError) {a : A} → or_throw o e ≡ ok a → o ≡ some a
or_throw-eq-ok (some a) e h = cc
or_throw-eq-ok none e h = cc

pub ok-pair {ℓ κ} :
    {A : Type ℓ} {B : Type κ} {a c : A} {b d : B}
    → ◌≡◌ {A = Result (A × B)} (ok (a, b)) (ok (c, d))
    → (a ≡ c) × (b ≡ d)
ok-pair h = (cc, cc)

-- Inversion of a bind that returned: its parts go to the rest of a proof.
pub >>=-elim {ℓ κ ι} :
    {A : Type ℓ} {B : Type κ} {C : Type ι} (m : Result A) (f : A → Result B) {b : B}
    → (m >>= f) ≡ ok b
    → ((a : A) → m ≡ ok a → f a ≡ ok b → C)
    → C
>>=-elim (ok a) f h k = k a refl h
>>=-elim (err e) f h k = absurd (cc)

-- To split on a computed value and keep the equation.
pub Result-cases {ℓ} :
    {A : Type ℓ} (m : Result A) → ((e : SignalError) × (m ≡ err e)) ⊎ ((a : A) × (m ≡ ok a))
Result-cases (err e) = inl (e, refl)
Result-cases (ok a) = inr (a, refl)
