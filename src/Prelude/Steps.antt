-- ===== src/Prelude/Steps.antt =====
-- Steps on a state: what was written before an exception stays written.
use mathlib.Core.Path.{◌≡◌, ap}
use agenda_agent.Prelude.Errors.{Error, Result, ok, err}

abbrev pub StepOn : Type 0 → Type 0 → Type 0
StepOn S A = S → S × Result A

unfoldable pub pass : {S A B : Type 0} → S × Result A → (A → StepOn S B) → S × Result B
pass (w, ok a) f = f a w
pass (w, err e) f = (w, err e)

infixl 5 ◌>>=◌
abbrev pub ◌>>=◌ : {S A B : Type 0} → StepOn S A → (A → StepOn S B) → StepOn S B
s >>= f = λ w. pass (s w) f

abbrev pub done : {S A : Type 0} → A → StepOn S A
done a = λ w. (w, ok a)

abbrev pub raise : {S A : Type 0} → Error → StepOn S A
raise e = λ w. (w, err e)

-- A step behind one with a known outcome.
pub pass-ok :
    {S A B : Type 0} (out : S × Result A) (f : A → StepOn S B) (w : S) (a : A)
    → out ≡ (w, ok a)
    → pass out f ≡ f a w
unfolding pass
pass-ok out f w a e = ap (λ o. pass o f) e

pub pass-err :
    {S A B : Type 0} (out : S × Result A) (f : A → StepOn S B) (w : S) (e : Error)
    → out ≡ (w, err e)
    → pass out f ≡ (w, err e)
unfolding pass
pass-err out f w e h = ap (λ o. pass o f) h
