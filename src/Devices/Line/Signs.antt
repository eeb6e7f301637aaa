-- ===== src/Devices/Line/Signs.antt =====
-- What `parse_line` (crates/trace-devices/src/tcp.rs) reads off a line.
use traceability.Base.{
  ℕ, Bool, true, false, not, ◌||◌, List, [], ◌∷◌, ◌++◌, Option, none, some, ◌≡◌, refl, inl, inr,
  arith, if◌then◌else◌, ◌==◌, is_digit, all, Bool-cases, append-nil, append_assoc,
}
use traceability.Devices.Line.{Reader, flush, is_taken, scan, parse_line}

-- A digit or a point.
abbrev pub is_body : ℕ → Bool
is_body c = is_digit c || c == b'.'

-- Nothing follows, or something that no number goes on with.
abbrev pub ends : List ℕ → Bool
ends [] = true
ends (c ∷ rest) = if is_body c then false else true

module _ {F : Type 0} (reader : Reader F) where
  scan-found : (best : F) (current line : List ℕ) → scan reader (some best) current line ≡ some best
  unfolding scan flush
  scan-found best current [] = refl
  scan-found best current (c ∷ line) = elim (Bool-cases (is_taken reader c current)) [
    | inl taken ↦ rw taken (scan-found best (current ++ c ∷ []) line)
    | inr other ↦ rw other (scan-found best [] line)
  ]

  is_taken-body : (c d : ℕ) (current : List ℕ) → is_taken reader c (d ∷ current) ≡ is_body c
  is_taken-body c d current = ground arith

  scan-body :
      (c : ℕ) (current body rest : List ℕ) {value : F}
      → all is_body body ≡ true
      → ends rest ≡ true
      → reader.parse ((c ∷ current) ++ body) ≡ some value
      → scan reader none (c ∷ current) (body ++ rest) ≡ some value
  unfolding scan flush
  scan-body c current [] [] h stop parsed = rw append-nil at parsed
  scan-body c current [] (d ∷ rest) h stop parsed =
      let other : is_body d ≡ false = ground (arith, stop) in
      let parsed' : reader.parse (c ∷ current) ≡ some _ = rw append-nil at parsed in
      rw (is_taken-body d c current, other, parsed', scan-found _ [] rest) refl
  scan-body c current (d ∷ body) rest h stop parsed =
      let more : is_body d ≡ true = ground (arith, h) in
      rw (is_taken-body d c current, more)
        (scan-body c (current ++ d ∷ []) body rest (ground (arith, h)) stop
          (rw (append_assoc current (d ∷ []) body) parsed))

  scan-number :
      (label : List ℕ) (c : ℕ) (body rest : List ℕ) {value : F}
      → all (λ x. not (is_taken reader x [])) label ≡ true
      → is_taken reader c [] ≡ true
      → all is_body body ≡ true
      → ends rest ≡ true
      → reader.parse (c ∷ body) ≡ some value
      → scan reader none [] (label ++ c ∷ body ++ rest) ≡ some value
  unfolding scan flush
  scan-number [] c body rest quiet starts h stop parsed =
      rw starts (scan-body c [] body rest h stop parsed)
  scan-number (d ∷ label) c body rest quiet starts h stop parsed =
      let other : is_taken reader d [] ≡ false = ground (arith, quiet) in
      rw other (scan-number label c body rest (ground (arith, quiet)) starts h stop parsed)

  -- A line is read as the number in it, where before the number there is no digit, point or sign,
  -- behind it no digit or point, and the number is a digit, a point or a sign with digits and points
  -- that `parse` knows.
  pub parse_line-number :
      (label : List ℕ) (c : ℕ) (body rest : List ℕ) {value : F}
      → all (λ x. not (is_taken reader x [])) label ≡ true
      → is_taken reader c [] ≡ true
      → all is_body body ≡ true
      → ends rest ≡ true
      → reader.parse (c ∷ body) ≡ some value
      → parse_line reader (label ++ c ∷ body ++ rest) ≡ some value
  unfolding parse_line
  parse_line-number = scan-number

  module _ (minus : reader.parse (b'-' ∷ []) ≡ none) (plus : reader.parse (b'+' ∷ []) ≡ none) where
    scan-blind :
        (best : Option F) (current before after : List ℕ)
        → scan reader best current (before ++ b'-' ∷ b' ' ∷ after)
          ≡ scan reader best current (before ++ b'+' ∷ b' ' ∷ after)
    unfolding scan flush
    scan-blind none [] [] after = rw (minus, plus) refl
    scan-blind (some best) [] [] after = refl
    scan-blind best (c ∷ current) [] after = refl
    scan-blind best current (c ∷ before) after = elim (Bool-cases (is_taken reader c current)) [
      | inl taken ↦ rw taken (scan-blind best (current ++ c ∷ []) before after)
      | inr other ↦ rw other (scan-blind (flush reader current best) [] before after)
    ]

    -- Where `parse` knows neither sign alone as a number, two lines that differ in a sign before a
    -- blank are read alike.
    pub parse_line-sign_blind :
        (before after : List ℕ)
        → parse_line reader (before ++ b'-' ∷ b' ' ∷ after)
          ≡ parse_line reader (before ++ b'+' ∷ b' ' ∷ after)
    unfolding parse_line
    parse_line-sign_blind before after = scan-blind none [] before after
