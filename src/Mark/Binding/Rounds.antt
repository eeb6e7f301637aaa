-- ===== src/Mark/Binding/Rounds.antt =====
-- Why the loop of `render_expression` (crates/trace-mark/src/binding.rs) ends.
use traceability.Base.{
  ℕ, zero, suc, ◌+◌, ◌≤◌, ◌≡◌, ◌&&◌, [], ◌∷◌, ◌++◌, Option, none, some, Result, ok, err, ◌>>=◌,
  refl, ap, inl, inr, ◌==◌, Bool-cases, length, arith, trim,
}
use traceability.Mark.Binding.{
  Text, BindingError, Chrono, BindingContext, Round, written, more, go_on, prepend, split_pair,
  resolve, resolved_step, closed_step, opened_step, step, render_from,
}

found_pair :
    {t before after : Text}
    → ◌≡◌ {A = Option (Text × Text)} (some ([], t)) (some (before, after))
    → after ≡ t
found_pair h = cc

prepended :
    (c : ℕ) (r : Option (Text × Text)) {before after : Text}
    → prepend c r ≡ some (before, after)
    → (before' : Text) × (r ≡ some (before', after))
prepended c none h = absurd (ground (arith, h))
prepended c (some (x, y)) h = (x, ap (λ z. some (x, z)) (ground (arith, h)))

-- A binding that is closed is shorter by both braces.
split_pair_shorter :
    (b : ℕ) (t before after : Text)
    → split_pair b t ≡ some (before, after)
    → length after + 2 ≤ length t
unfolding split_pair
split_pair_shorter b [] before after h = cc
split_pair_shorter b (c ∷ []) before after h = cc
split_pair_shorter b (c ∷ d ∷ t) before after h = elim (Bool-cases (c == b && d == b)) [
  | inl here ↦ let e : after ≡ t = found_pair (rw here at h) in rw e (omega arith)
  | inr later ↦
      let (before', e) = prepended c (split_pair b (d ∷ t)) (rw later at h) in
      let shorter = split_pair_shorter b (d ∷ t) before' after e in omega arith
]

module _ {Instant : Type 0} (chrono : Chrono Instant) (ctx : BindingContext Instant) where
  resolved_step-shorter :
      (out key rest : Text) (value : Option Text) {out' rest' : Text}
      → resolved_step chrono out key rest value ≡ ok (more out' rest')
      → rest' ≡ rest
  resolved_step-shorter out key rest none h = cc
  resolved_step-shorter out key rest (some value) h = cc

  closed_step-shorter :
      (template out after : Text) (found : Option (Text × Text)) {out' rest' : Text}
      → split_pair b'}' after ≡ found
      → closed_step chrono ctx template out found ≡ ok (more out' rest')
      → length rest' + 2 ≤ length after
  closed_step-shorter template out after none p h = absurd (ground (arith, h))
  closed_step-shorter template out after (some (key, rest)) p h =
      rw (resolved_step-shorter out (trim key) rest (resolve chrono ctx (trim key)) h)
        (split_pair_shorter b'}' after key rest p)

  opened_step-shorter :
      (template out rest : Text) (found : Option (Text × Text)) {out' rest' : Text}
      → split_pair b'{' rest ≡ found
      → opened_step chrono ctx template out rest found ≡ ok (more out' rest')
      → length rest' + 4 ≤ length rest
  opened_step-shorter template out rest none p h = absurd (ground (arith, h))
  opened_step-shorter template out rest (some (before, after)) p h =
      let first = split_pair_shorter b'{' rest before after p in
      let second =
        closed_step-shorter template (out ++ before) after (split_pair b'}' after) refl h in
      omega (arith, first, second)

  go_on-same :
      (r : Result BindingError Round) (f g : Text → Text → Result BindingError Text)
      → ((out rest : Text) → r ≡ ok (more out rest) → f out rest ≡ g out rest)
      → (r >>= go_on f) ≡ (r >>= go_on g)
  go_on-same (err e) f g h = refl
  go_on-same (ok (written out)) f g h = refl
  go_on-same (ok (more out rest)) f g h = h out rest refl

  -- The loop ends: from as many rounds as there are characters left, one more changes nothing.
  pub render_from-enough :
      (fuel : ℕ) (template out rest : Text)
      → length rest ≤ fuel
      → render_from chrono (suc fuel) ctx template out rest
        ≡ render_from chrono fuel ctx template out rest
  unfolding render_from step split_pair
  render_from-enough zero template out [] f = refl
  render_from-enough zero template out (c ∷ rest) f = absurd (omega arith)
  render_from-enough (suc fuel) template out rest f =
      go_on-same (step chrono ctx template out rest) _ _ λ o r e.
        let shorter = opened_step-shorter template out rest (split_pair b'{' rest) refl e in
        render_from-enough fuel template o r (omega arith)
