-- ===== src/Pipeline/Effect/Steady.antt =====
-- pipeline_run.py: effects that neither write another resume point nor report.
use herdr_routines.Prelude.{◌≡◌, some, List, [], ◌∷◌, ◌++◌}
use herdr_routines.Prelude.Dict.{get}
use herdr_routines.Json.{ℤ, int}
use herdr_routines.Pipeline.Effect.{
  Event, state_written, reported, Result, returned, aborted, crashed, Eff, known, ◌>>=◌,
}

abbrev pub Quiet : ℤ → Event → Type 0
Quiet n (state_written d) = get "current_stage" d ≡ some (int n)
Quiet n (reported outcome reason) = ⊥
Quiet n _ = Unit

abbrev pub AllQuiet : ℤ → List Event → Type 0
AllQuiet n [] = Unit
AllQuiet n (e ∷ es) = Quiet n e × AllQuiet n es

pub AllQuiet-append :
    (n : ℤ) (es fs : List Event) → AllQuiet n es → AllQuiet n fs → AllQuiet n (es ++ fs)
AllQuiet-append n [] fs h k = k
AllQuiet-append n (e ∷ es) fs h k = (h.0, AllQuiet-append n es fs h.1 k)

abbrev pub Gives : {A : Type 0} → (A → Type 0) → Result A → Type 0
Gives P (returned a) = P a
Gives P _ = Unit

abbrev pub Steady : {A : Type 0} → ℤ → (A → Type 0) → Eff A → Type 0
Steady n P m = AllQuiet n m.0 × Gives P m.1

-- Nothing is asked of the value.
abbrev pub Any : {A : Type 0} → A → Type 0
Any a = Unit

pub bind-Steady :
    {A B : Type 0} (n : ℤ) (P : A → Type 0) (Q : B → Type 0) (m : Eff A) (k : A → Eff B)
    → Steady n P m
    → ((a : A) → P a → Steady n Q (k a))
    → Steady n Q (m >>= k)
bind-Steady n P Q (es, returned a) k h next =
    let rest = next a h.1 in (AllQuiet-append n es (k a).0 h.0 rest.0, rest.1)
bind-Steady n P Q (es, aborted x) k h next = h
bind-Steady n P Q (es, crashed) k h next = h

pub known-Steady : {A : Type 0} (n : ℤ) (r : Result A) → Steady n Any (known r)
known-Steady n (returned a) = (tt, tt)
known-Steady n (aborted x) = (tt, tt)
known-Steady n crashed = (tt, tt)
