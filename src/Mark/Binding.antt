-- ===== src/Mark/Binding.antt =====
-- crates/trace-mark/src/binding.rs: the `{{name}}` expressions of a template. A text is the list of its
-- characters, by code point. chrono's formatting and the clock are parameters.
pub mod Pieces
pub mod Rounds
use traceability.Base.{
  ℕ, zero, suc, ◌-◌, Bool, true, false, ◌&&◌, ◌||◌, List, [], ◌∷◌, ◌++◌, Option, none, some, Result,
  ok, err, ◌>>=◌, ◌==◌, leb, if◌then◌else◌, length, is_empty, bytes_eq, trim,
}

abbrev pub Text : Type 0
Text = List ℕ

pub data BindingError : Type 0 where
  unknown_binding : (key : Text) → BindingError
  unterminated : (template : Text) → BindingError

-- `DateTime<Utc>` with its `format`, and `Utc::now`.
pub record Chrono (Instant : Type 0) : Type 0 where
  pub format : Instant → Text → Text
  pub utc_now : Instant

-- A name's last binding comes first.
pub record BindingContext (Instant : Type 0) : Type 0 where
  pub values : List (Text × Text)
  pub now : Option Instant

unfoldable pub with_value :
    {Instant : Type 0} → BindingContext Instant → Text → Text → BindingContext Instant
with_value ctx key value = record ctx { values = (key, value) ∷ ctx.values }

unfoldable pub get : List (Text × Text) → Text → Option Text
get [] key = none
get ((k, value) ∷ rest) key = if bytes_eq k key then some value else get rest key

-- `str::strip_prefix`
unfoldable pub strip_prefix : Text → Text → Option Text
strip_prefix [] text = some text
strip_prefix (p ∷ ps) [] = none
strip_prefix (p ∷ ps) (c ∷ text) = if p == c then strip_prefix ps text else none

abbrev pub is_some : {A : Type 0} → Option A → Bool
is_some none = false
is_some (some a) = true

-- `str::replace`, with the number of characters that the last match has still to skip.
unfoldable pub replace_from : Text → Text → ℕ → Text → Text
replace_from token replacement skip [] = []
replace_from token replacement (suc skip) (c ∷ text) = replace_from token replacement skip text
replace_from token replacement zero (c ∷ text) =
    if is_some (strip_prefix token (c ∷ text))
    then replacement ++ replace_from token replacement (length token - 1) text
    else c ∷ replace_from token replacement zero text

abbrev pub replace_all : List (Text × Text) → Text → Text
replace_all [] text = text
replace_all ((token, replacement) ∷ rest) text =
    replace_all rest (replace_from token replacement zero text)

abbrev pub percent : ℕ → Text
percent c = b'%' ∷ c ∷ []

-- The tokens in the order in which they are replaced, each with chrono's specifier.
abbrev pub tokens : List (Text × Text)
tokens =
    (b'y' ∷ b'y' ∷ b'y' ∷ b'y' ∷ [], percent b'Y')
    ∷ (b'M' ∷ b'M' ∷ [], percent b'm')
    ∷ (b'd' ∷ b'd' ∷ [], percent b'd')
    ∷ (b'H' ∷ b'H' ∷ [], percent b'H')
    ∷ (b'm' ∷ b'm' ∷ [], percent b'M')
    ∷ (b's' ∷ b's' ∷ [], percent b'S')
    ∷ (b'y' ∷ b'y' ∷ [], percent b'y')
    ∷ []

abbrev pub now_prefix : Text
now_prefix = b'n' ∷ b'o' ∷ b'w' ∷ b':' ∷ []

abbrev pub prepend : ℕ → Option (Text × Text) → Option (Text × Text)
prepend c none = none
prepend c (some (before, after)) = some (c ∷ before, after)

-- What stands before and after the first `{{`, or the first `}}`: `find` with the two slices.
unfoldable pub split_pair : ℕ → Text → Option (Text × Text)
split_pair b [] = none
split_pair b (c ∷ []) = none
split_pair b (c ∷ d ∷ rest) =
    if c == b && d == b then some ([], rest) else prepend c (split_pair b (d ∷ rest))

pub data Round : Type 0 where
  written : (out : Text) → Round
  more : (out rest : Text) → Round

abbrev pub go_on : (Text → Text → Result BindingError Text) → Round → Result BindingError Text
go_on next (written out) = ok out
go_on next (more out rest) = next out rest

module _ {Instant : Type 0} (chrono : Chrono Instant) where
  abbrev pub formatted : Instant → List (Text × Text) → List (Text × Text)
  formatted now [] = []
  formatted now ((token, specifier) ∷ rest) =
      (token, chrono.format now specifier) ∷ formatted now rest

  unfoldable pub format_datetime : Instant → Text → Text
  format_datetime now pattern = replace_all (formatted now tokens) pattern

  abbrev pub or_now : Option Instant → Instant
  or_now none = chrono.utc_now
  or_now (some now) = now

  abbrev pub resolve_key : BindingContext Instant → Text → Option Text → Option Text
  resolve_key ctx key (some fmt) = some (format_datetime (or_now ctx.now) fmt)
  resolve_key ctx key none = get ctx.values key

  unfoldable pub resolve : BindingContext Instant → Text → Option Text
  resolve ctx key = resolve_key ctx key (strip_prefix now_prefix key)

  -- One round of the loop of `render_expression`: the end, or what is written and what is left.
  abbrev pub resolved_step : Text → Text → Text → Option Text → Result BindingError Round
  resolved_step out key rest none = err (unknown_binding key)
  resolved_step out key rest (some value) = ok (more (out ++ value) rest)

  abbrev pub closed_step :
      BindingContext Instant → Text → Text → Option (Text × Text) → Result BindingError Round
  closed_step ctx template out none = err (unterminated template)
  closed_step ctx template out (some (key, rest)) =
      resolved_step out (trim key) rest (resolve ctx (trim key))

  abbrev pub opened_step :
      BindingContext Instant → Text → Text → Text → Option (Text × Text) → Result BindingError Round
  opened_step ctx template out rest none = ok (written (out ++ rest))
  opened_step ctx template out rest (some (before, after)) =
      closed_step ctx template (out ++ before) (split_pair b'}' after)

  unfoldable pub step : BindingContext Instant → Text → Text → Text → Result BindingError Round
  step ctx template out rest = opened_step ctx template out rest (split_pair b'{' rest)

  -- A round takes four characters at least off what is left.
  unfoldable pub render_from :
      ℕ → BindingContext Instant → Text → Text → Text → Result BindingError Text
  render_from zero ctx template out rest = ok (out ++ rest)
  render_from (suc fuel) ctx template out rest =
      step ctx template out rest >>= go_on (render_from fuel ctx template)

  unfoldable pub render_expression : Text → BindingContext Instant → Result BindingError Text
  render_expression template ctx = render_from (length template) ctx template [] template
