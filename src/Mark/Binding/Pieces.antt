-- ===== src/Mark/Binding/Pieces.antt =====
-- What `render_expression` (crates/trace-mark/src/binding.rs) makes of a template, by its pieces.
use traceability.Base.{
  ℕ, zero, suc, ◌≤◌, ◌≡◌, true, false, List, [], ◌∷◌, ◌++◌, Option, none, some, Result, ok, err,
  ◌>>=◌, refl, ◌∙◌, ◌==◌, ==_iff, All, length, length-append, lacks, arith, append_assoc, trim,
}
use traceability.Mark.Binding.{
  Text, BindingError, unknown_binding, unterminated, Chrono, BindingContext, go_on, split_pair,
  resolve, resolved_step, step, render_from, render_expression,
}

-- Text, and the key of the binding behind it.
pub record Segment : Type 0 where
  pub literal : Text
  pub key : Text

-- How a template ends: with text, or with a binding that is not closed.
pub data Ending : Type 0 where
  last : (literal : Text) → Ending
  open_ended : (literal key : Text) → Ending

abbrev pub print_ending : Ending → Text
print_ending (last literal) = literal
print_ending (open_ended literal key) = literal ++ b'{' ∷ b'{' ∷ key

abbrev pub print : List Segment → Ending → Text
print [] ending = print_ending ending
print (s ∷ rest) ending = s.literal ++ b'{' ∷ b'{' ∷ (s.key ++ b'}' ∷ b'}' ∷ print rest ending)

-- No brace that could be taken for one of a binding's.
abbrev pub IsSegment : Segment → Type 0
IsSegment s = (lacks b'{' s.literal ≡ true) × (lacks b'}' s.key ≡ true)

abbrev pub IsEnding : Ending → Type 0
IsEnding (last literal) = lacks b'{' literal ≡ true
IsEnding (open_ended literal key) = (lacks b'{' literal ≡ true) × (lacks b'}' key ≡ true)

split_pair-lacks : (b : ℕ) (t : Text) → lacks b t ≡ true → split_pair b t ≡ none
unfolding split_pair
split_pair-lacks b [] h = refl
split_pair-lacks b (c ∷ []) h = refl
split_pair-lacks b (c ∷ d ∷ t) h =
    let rest : split_pair b (d ∷ t) ≡ none = split_pair-lacks b (d ∷ t) (ground (arith, h)) in
    let other : c == b ≡ false = ground (arith, h) in rw (other, rest) refl

split_pair-append :
    (b : ℕ) (t rest : Text) → lacks b t ≡ true → split_pair b (t ++ b ∷ b ∷ rest) ≡ some (t, rest)
unfolding split_pair
split_pair-append b [] rest h = rw ((==_iff b b).1 refl) refl
split_pair-append b (c ∷ []) rest h =
    let other : c == b ≡ false = ground (arith, h) in rw (other, (==_iff b b).1 refl) refl
split_pair-append b (c ∷ d ∷ t) rest h =
    let later = split_pair-append b (d ∷ t) rest (ground (arith, h)) in
    let other : c == b ≡ false = ground (arith, h) in rw (other, later) refl

tail_shorter :
    (s : Segment) (rest : Text) (fuel : ℕ)
    → length (s.literal ++ b'{' ∷ b'{' ∷ (s.key ++ b'}' ∷ b'}' ∷ rest)) ≤ suc fuel
    → length rest ≤ fuel
tail_shorter s rest fuel h = omega (
  arith,
  h,
  length-append s.literal (b'{' ∷ b'{' ∷ (s.key ++ b'}' ∷ b'}' ∷ rest)),
  length-append s.key (b'}' ∷ b'}' ∷ rest),
)

module _ {Instant : Type 0} (chrono : Chrono Instant) (ctx : BindingContext Instant) where
  -- What the segments are rendered to: the texts with the values between them, or the first key that has
  -- no value.
  abbrev pub resolved : Option Text → Text → Result BindingError Text → Result BindingError Text
  resolved none key rest = err (unknown_binding key)
  resolved (some value) key (ok rest) = ok (value ++ rest)
  resolved (some value) key (err e) = err e

  abbrev pub after_text : Text → Result BindingError Text → Result BindingError Text
  after_text literal (ok rest) = ok (literal ++ rest)
  after_text literal (err e) = err e

  abbrev pub evaluate_ending : Text → Ending → Result BindingError Text
  evaluate_ending template (last literal) = ok literal
  evaluate_ending template (open_ended literal key) = err (unterminated template)

  abbrev pub evaluate : Text → List Segment → Ending → Result BindingError Text
  evaluate template [] ending = evaluate_ending template ending
  evaluate template (s ∷ rest) ending =
      after_text s.literal
        (resolved (resolve chrono ctx (trim s.key)) (trim s.key) (evaluate template rest ending))

  after_nothing : (r : Result BindingError Text) → after_text [] r ≡ r
  after_nothing (ok rest) = refl
  after_nothing (err e) = refl

  after_text_assoc :
      (out literal value key : Text) (r : Result BindingError Text)
      → after_text (out ++ literal ++ value) r
        ≡ after_text out (after_text literal (resolved (some value) key r))
  after_text_assoc out literal value key (ok rest) = simp (append_assoc)
  after_text_assoc out literal value key (err e) = refl

  render_from-ending :
      (fuel : ℕ) (template out : Text) (ending : Ending)
      → length (print_ending ending) ≤ fuel
      → IsEnding ending
      → render_from chrono fuel ctx template out (print_ending ending)
        ≡ after_text out (evaluate_ending template ending)
  unfolding render_from step
  render_from-ending zero template out (last literal) f h = refl
  render_from-ending (suc fuel) template out (last literal) f h =
      rw (split_pair-lacks b'{' literal h) refl
  render_from-ending zero template out (open_ended literal key) f h =
      absurd (omega (arith, length-append literal (b'{' ∷ b'{' ∷ key)))
  render_from-ending (suc fuel) template out (open_ended literal key) f h =
      rw (split_pair-append b'{' literal key h.0, split_pair-lacks b'}' key h.1) refl

  -- One segment, before a rest that is rendered as it should be.
  render_resolved :
      (template out key rest : Text) (s : Segment) (r : Result BindingError Text)
      (next : Text → Text → Result BindingError Text)
      → ((o : Text) → next o rest ≡ after_text o r)
      → (value : Option Text)
      → (resolved_step chrono (out ++ s.literal) key rest value >>= go_on next)
        ≡ after_text out (after_text s.literal (resolved value key r))
  render_resolved template out key rest s r next ih none = refl
  render_resolved template out key rest s r next ih (some value) =
      ih (out ++ s.literal ++ value) ∙ after_text_assoc out s.literal value key r

  render_from-print :
      (fuel : ℕ) (template out : Text) (segments : List Segment) (ending : Ending)
      → length (print segments ending) ≤ fuel
      → All IsSegment segments
      → IsEnding ending
      → render_from chrono fuel ctx template out (print segments ending)
        ≡ after_text out (evaluate template segments ending)
  unfolding render_from step
  render_from-print fuel template out [] ending f h e =
      render_from-ending fuel template out ending f e
  render_from-print zero template out (s ∷ rest) ending f h e = absurd (
      omega
        (arith, length-append s.literal (b'{' ∷ b'{' ∷ (s.key ++ b'}' ∷ b'}' ∷ print rest ending))))
  render_from-print (suc fuel) template out (s ∷ rest) ending f h e =
      rw
        (
          split_pair-append b'{' s.literal (s.key ++ b'}' ∷ b'}' ∷ print rest ending) h.0.0,
          split_pair-append b'}' s.key (print rest ending) h.0.1,
        )
        (render_resolved template out (trim s.key) (print rest ending) s
          (evaluate template rest ending) (render_from chrono fuel ctx template)
          (λ o.
            render_from-print fuel template o rest ending
              (tail_shorter s (print rest ending) fuel f) h.1 e)
          (resolve chrono ctx (trim s.key)))

  -- A template of segments and an ending is rendered to the texts with the bound values between them, to
  -- the error for the first key without a value, or, where the last binding is not closed, to that error.
  pub render_expression-print :
      (segments : List Segment) (ending : Ending)
      → All IsSegment segments
      → IsEnding ending
      → render_expression chrono (print segments ending) ctx
        ≡ evaluate (print segments ending) segments ending
  unfolding render_expression
  render_expression-print segments ending h e =
      let t = print segments ending in
      render_from-print (length t) t [] segments ending (omega arith) h e
      ∙ after_nothing (evaluate t segments ending)
