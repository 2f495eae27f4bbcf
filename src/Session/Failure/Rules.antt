-- ===== src/Session/Failure/Rules.antt =====
-- How the state of a job ends: rules for each form of step, by which a proof follows a job's text.
use libsignal_node.Common.{
  ◌≡◌, refl, Option, none, some, Bool, true, false, SignalError, Result, ok, err,
}
use libsignal_node.Common.Jobs.{Job, continue, or_throw, require}

-- What holds of the state if the job has thrown, and what holds if it has returned.
abbrev pub Ends : {W A : Type 0} → (W → Type 0) → (W → Type 0) → Result A × W → Type 0
Ends P Q (err e, w) = P w
Ends P Q (ok a, w) = Q w

abbrev pub IfThrown : {W A : Type 0} → (W → Type 0) → Result A × W → Type 0
IfThrown P x = Ends P (λ _. Unit {0}) x

pub mono-Ends :
    {W A : Type 0} (P P' Q : W → Type 0) (x : Result A × W)
    → ((w : W) → P w → P' w)
    → Ends P Q x
    → Ends P' Q x
mono-Ends P P' Q (err e, w) f h = f w h
mono-Ends P P' Q (ok a, w) f h = h

pub state-Ends : {W A : Type 0} (P : W → Type 0) (x : Result A × W) → Ends P P x → P x.1
state-Ends P (err e, w) h = h
state-Ends P (ok a, w) h = h

pub thrown_self :
    {W A : Type 0} (P : W → Type 0) (x : Result A × W)
    → ((e : SignalError) (w : W) → x ≡ (err e, w) → P w)
    → IfThrown P x
thrown_self P (err e, w) h = h e w refl
thrown_self P (ok a, w) h = tt

module _ {W A B : Type 0} (P Q : W → Type 0) where
  pub thrown-continue :
      (r : Result A) (f : A → Job W B) (w : W)
      → P w
      → ((a : A) → Ends P Q (f a w))
      → Ends P Q (continue r f w)
  thrown-continue (err e) f w start rest = start
  thrown-continue (ok a) f w start rest = rest a

  pub thrown-or_throw :
      (o : Option A) (e : SignalError) (f : A → Job W B) (w : W)
      → P w
      → ((a : A) → Ends P Q (f a w))
      → Ends P Q (continue (or_throw o e w).0 f (or_throw o e w).1)
  thrown-or_throw none e f w start rest = start
  thrown-or_throw (some a) e f w start rest = rest a

  pub thrown-option :
      (o : Option A) (f : Job W B) (g : A → Job W B) (w : W)
      → Ends P Q (f w)
      → ((a : A) → Ends P Q (g a w))
      → Ends P Q ((elim o as (λ _. Job W B) [ none ↦ f | some a ↦ g a ]) w)
  thrown-option none f g w absent present = absent
  thrown-option (some a) f g w absent present = present a

  -- A part of which it is known how it ends.
  pub thrown-after :
      (P' : W → Type 0) (x : Result A × W) (f : A → Job W B)
      → Ends P P' x
      → ((a : A) (w : W) → P' w → Ends P Q (f a w))
      → Ends P Q (continue x.0 f x.1)
  thrown-after P' (err e, w) f here rest = here
  thrown-after P' (ok a, w) f here rest = rest a w here

  -- A part that leaves the state in `P` however it ends.
  pub thrown-part :
      (x : Result A × W) (f : A → Job W B)
      → P x.1
      → ((a : A) → Ends P Q (f a x.1))
      → Ends P Q (continue x.0 f x.1)
  thrown-part (err e, w) f here rest = here
  thrown-part (ok a, w) f here rest = rest a

module _ {W B : Type 0} (P Q : W → Type 0) where
  pub thrown-require :
      (b : Bool) (e : SignalError) (f : Unit {0} → Job W B) (w : W)
      → P w
      → Ends P Q (f tt w)
      → Ends P Q (continue (require b e w).0 f (require b e w).1)
  thrown-require false e f w start rest = start
  thrown-require true e f w start rest = rest
