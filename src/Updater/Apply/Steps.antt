-- ===== src/Updater/Apply/Steps.antt =====
-- What a sequence of calls establishes, whichever of them fails (crates/trace-updater/src/apply.rs).
use traceability.Base.{ℕ, Bool, Option, none, some, Result, ok, err, ◌≡◌, refl}
use traceability.Updater.Manifest.{UpdateError, UpdatePath}
use traceability.Updater.Apply.Calls.{
  Layout, World, Io, and_then, ◌>>=◌, ◌>>◌, lift, call, try_exists, first_fault, other_faults,
  perform, answer,
}

-- `Q` holds of the value and the state that are left, or `E` of the state that an error leaves.
abbrev pub Ends :
    {A : Type 0} → (A → Layout → Type 0) → (Layout → Type 0) → World × Result UpdateError A → Type 0
Ends Q E (w, ok a) = Q a w.layout
Ends Q E (w, err e) = E w.layout

-- From every state with `P` and whatever calls fail.
abbrev pub Triple :
    {A : Type 0} → (Layout → Type 0) → Io A → (A → Layout → Type 0) → (Layout → Type 0) → Type 0
Triple P m Q E = (w : World) → P w.layout → Ends Q E (m w)

and_then-Ends :
    {A B : Type 0} (Q : A → Layout → Type 0) (R : B → Layout → Type 0) (E : Layout → Type 0)
    (f : A → Io B) (r : World × Result UpdateError A)
    → ((a : A) → Triple (Q a) (f a) R E)
    → Ends Q E r
    → Ends R E (and_then r f)
and_then-Ends Q R E f (w, ok a) t h = t a w h
and_then-Ends Q R E f (w, err e) t h = h

pub bind-Triple :
    {A B : Type 0} (P : Layout → Type 0) (Q : A → Layout → Type 0) (R : B → Layout → Type 0)
    (E : Layout → Type 0) (m : Io A) (f : A → Io B)
    → Triple P m Q E
    → ((a : A) → Triple (Q a) (f a) R E)
    → Triple P (m >>= f) R E
bind-Triple P Q R E m f t u w h = and_then-Ends Q R E f (m w) u (t w h)

perform-Ends :
    (Q E : Layout → Type 0) (path : UpdatePath) (done : Layout → Layout)
    (broken : ℕ → Layout → Layout) (w : World) (fault : Option ℕ)
    → Q (done w.layout)
    → ((n : ℕ) → E (broken n w.layout))
    → Ends (λ u. Q) E (perform path done broken w fault)
perform-Ends Q E path done broken w none q e = q
perform-Ends Q E path done broken w (some n) q e = e n

pub call-Triple :
    (P Q E : Layout → Type 0) (path : UpdatePath) (done : Layout → Layout)
    (broken : ℕ → Layout → Layout)
    → ((l : Layout) → P l → Q (done l))
    → ((n : ℕ) (l : Layout) → P l → E (broken n l))
    → Triple P (call path done broken) (λ u. Q) E
unfolding call
call-Triple P Q E path done broken q e w h =
    perform-Ends Q E path done broken (record w { faults = other_faults w.faults })
      (first_fault w.faults) (q w.layout h) (λ n. e n w.layout h)

answer-Ends :
    (P E : Layout → Type 0) (found : Bool) (w : World) (fault : Option ℕ)
    → P w.layout
    → Ends (λ b. P) E (answer found w fault)
answer-Ends P E found w none h = h
answer-Ends P E found w (some n) h = h

pub try_exists-Triple :
    (P E : Layout → Type 0) (found : Layout → Bool) → Triple P (try_exists found) (λ b. P) E
unfolding try_exists
try_exists-Triple P E found w h =
    answer-Ends P E (found w.layout) (record w { faults = other_faults w.faults })
      (first_fault w.faults) h

lift-Ends :
    {A : Type 0} (P E : Layout → Type 0) (r : Result UpdateError A) (w : World)
    → ((l : Layout) → P l → E l)
    → P w.layout
    → Ends (λ a l. P l × (r ≡ ok a)) E (w, r)
lift-Ends P E (ok a) w e h = (h, refl)
lift-Ends P E (err x) w e h = e w.layout h

pub lift-Triple :
    {A : Type 0} (P E : Layout → Type 0) (r : Result UpdateError A)
    → ((l : Layout) → P l → E l)
    → Triple P (lift r) (λ a l. P l × (r ≡ ok a)) E
lift-Triple P E r e w h = lift-Ends P E r w e h

-- A condition may be weakened before and after.
weaken-Ends :
    {A : Type 0} (Q Q' : A → Layout → Type 0) (E E' : Layout → Type 0)
    (r : World × Result UpdateError A)
    → ((a : A) (l : Layout) → Q a l → Q' a l)
    → ((l : Layout) → E l → E' l)
    → Ends Q E r
    → Ends Q' E' r
weaken-Ends Q Q' E E' (w, ok a) q e h = q a w.layout h
weaken-Ends Q Q' E E' (w, err x) q e h = e w.layout h

pub weaken-Triple :
    {A : Type 0} (P : Layout → Type 0) (Q Q' : A → Layout → Type 0) (E E' : Layout → Type 0)
    (m : Io A)
    → ((a : A) (l : Layout) → Q a l → Q' a l)
    → ((l : Layout) → E l → E' l)
    → Triple P m Q E
    → Triple P m Q' E'
weaken-Triple P Q Q' E E' m q e t w h = weaken-Ends Q Q' E E' (m w) q e (t w h)

pub then-Triple :
    {B : Type 0} (P Q : Layout → Type 0) (R : B → Layout → Type 0) (E : Layout → Type 0)
    (m : Io (Unit {0})) (k : Io B)
    → Triple P m (λ u. Q) E
    → Triple Q k R E
    → Triple P (m >> k) R E
then-Triple P Q R E m k t u = bind-Triple P (λ x. Q) R E m (λ x. k) t (λ x. u)
