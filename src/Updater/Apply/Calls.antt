-- ===== src/Updater/Apply/Calls.antt =====
-- Calls of the file system that may fail, in order, on the install root that
-- crates/trace-updater/src/apply.rs works in.
use traceability.Base.{
  ℕ, String, Bool, false, List, [], ◌∷◌, Option, none, some, Result, ok, err, str_eq, if◌then◌else◌,
}
use traceability.Core.Chain.{Bytes}
use traceability.Updater.Manifest.{UpdateError, io, UpdatePath}

-- Files by name.
abbrev pub Dir : Type 0
Dir = List (String × Bytes)

-- The name's last binding first: `File::create` over a file that is there truncates it.
abbrev pub file : String → Dir → Option Bytes
file name [] = none
file name ((n, bytes) ∷ rest) = if str_eq n name then some bytes else file name rest

-- The directories below `releases` and `staging`, by the text of the version; the links, by the name
-- of the release they point at; whether a link's temporary name is taken.
pub record Layout : Type 0 where
  pub releases : String → Option Dir
  pub staging : String → Option Dir
  pub current : Option String
  pub previous : Option String
  pub current_tmp : Bool
  pub previous_tmp : Bool

abbrev pub set {ℓ} : {A : Type ℓ} → String → A → (String → A) → String → A
set name value map n = if str_eq n name then value else map n

-- Where the path lies that `staging.join(name)` gives for the name of an artifact: within the directory
-- of the release that is staged, by its normal path from there, or elsewhere, as for a name that is
-- absolute or goes up by `..`. A path elsewhere has a parent unless it is the root.
pub data Place : Type 0 where
  within : (path : String) → Place
  elsewhere : (has_parent : Bool) → Place

-- `std::path`, and what writing elsewhere does to the install root, by the version and the name: a file
-- that is written, and the directories above it, of which a call that fails may have made some.
pub record Paths : Type 0 where
  pub join : String → Place
  pub written : String → String → Bytes → Layout → Layout
  pub parents_made : Option ℕ → String → String → Layout → Layout

-- What the next calls meet: `none` for one that succeeds, and `some n` for one that fails, having
-- done `n` steps where it has several. Calls after the last entry succeed.
pub record World : Type 0 where
  pub layout : Layout
  pub faults : List (Option ℕ)

abbrev pub Io : Type 0 → Type 0
Io A = World → World × Result UpdateError A

abbrev pub return : {A : Type 0} → A → Io A
return a w = (w, ok a)

abbrev pub fail : {A : Type 0} → UpdateError → Io A
fail e w = (w, err e)

abbrev pub and_then :
    {A B : Type 0} → World × Result UpdateError A → (A → Io B) → World × Result UpdateError B
and_then (w, ok a) f = f a w
and_then (w, err e) f = (w, err e)

infixl 5 ◌>>=◌ ◌>>◌
abbrev pub ◌>>=◌ : {A B : Type 0} → Io A → (A → Io B) → Io B
(m >>= f) w = and_then (m w) f

abbrev pub ◌>>◌ : {B : Type 0} → Io (Unit {0}) → Io B → Io B
m >> k = m >>= λ done. k

-- A value that is computed without a call.
abbrev pub lift : {A : Type 0} → Result UpdateError A → Io A
lift r w = (w, r)

abbrev pub first_fault : List (Option ℕ) → Option ℕ
first_fault [] = none
first_fault (f ∷ rest) = f

abbrev pub other_faults : List (Option ℕ) → List (Option ℕ)
other_faults [] = []
other_faults (f ∷ rest) = rest

abbrev pub perform :
    UpdatePath
    → (Layout → Layout)
    → (ℕ → Layout → Layout)
    → World
    → Option ℕ
    → World × Result UpdateError (Unit {0})
perform path done broken w none = (record w { layout = done w.layout }, ok tt)
perform path done broken w (some n) = (record w { layout = broken n w.layout }, err (io path))

-- A call with its effect, and its effect where it fails.
unfoldable pub call : UpdatePath → (Layout → Layout) → (ℕ → Layout → Layout) → Io (Unit {0})
call path done broken w =
    perform path done broken (record w { faults = other_faults w.faults }) (first_fault w.faults)

abbrev pub answer : Bool → World → Option ℕ → World × Result UpdateError Bool
answer found w none = (w, ok found)
answer found w (some n) = (w, ok false)

-- `try_exists(…).await.unwrap_or(false)`
unfoldable pub try_exists : (Layout → Bool) → Io Bool
try_exists found w =
    answer (found w.layout) (record w { faults = other_faults w.faults }) (first_fault w.faults)
