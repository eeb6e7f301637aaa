-- ===== src/Station/Spool/Lines.antt =====
-- `str::lines` and UTF-8 over a file to which lines are added.
use traceability.Base.{
  ℕ, zero, suc, ◌≤◌, length, take, true, false, List, [], ◌∷◌, ◌++◌, Option, none, some, ◌≡◌, refl,
  ap, ◌∙◌, inl, inr, arith, ◌==◌, lacks, append-nil, append_assoc, Bool-cases,
}
use traceability.Core.Chain.{Bytes}
use traceability.Station.Spool.{
  newline, utf8_step, utf8_state, at_boundary, is_utf8, strip_cr, last_line, lines_from,
}

-- A line without a newline, then a newline.
pub lines_from-line :
    (line text rest : Bytes)
    → lacks newline text ≡ true
    → lines_from line (text ++ newline ∷ rest) ≡ strip_cr (line ++ text) ∷ lines_from [] rest
unfolding lines_from
lines_from-line line [] rest h = rw (append-nil line) refl
lines_from-line line (b ∷ text) rest h =
    let other : (b == newline) ≡ false = ground (arith, h) in
    rw other (
      lines_from-line (line ++ b ∷ []) text rest (ground (arith, h))
      ∙ ap (λ l. strip_cr l ∷ lines_from [] rest) (append_assoc line (b ∷ []) text))

-- What follows a newline makes lines of its own.
pub lines_from-append :
    (line a b : Bytes)
    → lines_from line (a ++ newline ∷ b) ≡ lines_from line (a ++ newline ∷ []) ++ lines_from [] b
unfolding lines_from
lines_from-append line [] b = refl
lines_from-append line (x ∷ a) b = elim (Bool-cases (x == newline)) [
  | inl ends ↦ rw (ends, lines_from-append [] a b) refl
  | inr on ↦ rw (on, lines_from-append (line ++ x ∷ []) a b) refl
]

utf8_state-append :
    (s : Option (List (ℕ × ℕ))) (a b : Bytes)
    → utf8_state s (a ++ b) ≡ utf8_state (utf8_state s a) b
unfolding utf8_state
utf8_state-append s [] b = refl
utf8_state-append s (x ∷ a) b = utf8_state-append (utf8_step s x) a b

state_at_boundary : (s : Option (List (ℕ × ℕ))) → at_boundary s ≡ true → s ≡ some []
state_at_boundary none h = cc
state_at_boundary (some []) h = refl
state_at_boundary (some (r ∷ rs)) h = cc

-- A text followed by bytes is a text exactly if the bytes are.
pub is_utf8-append : (a b : Bytes) → is_utf8 a ≡ true → is_utf8 (a ++ b) ≡ is_utf8 b
unfolding is_utf8
is_utf8-append a b h = ap at_boundary (
    utf8_state-append (some []) a b
    ∙ ap (λ s. utf8_state s b) (state_at_boundary (utf8_state (some []) a) h))

-- A text without a newline is its own last line.
pub lines_from-lacks :
    (line text : Bytes)
    → lacks newline text ≡ true
    → lines_from line text ≡ last_line (line ++ text)
unfolding lines_from
lines_from-lacks line [] h = rw (append-nil line) refl
lines_from-lacks line (b ∷ text) h =
    let other : (b == newline) ≡ false = ground (arith, h) in
    rw other (
      lines_from-lacks (line ++ b ∷ []) text (ground (arith, h))
      ∙ ap last_line (append_assoc line (b ∷ []) text))

pub take-lacks :
    (n : ℕ) (text rest : Bytes)
    → lacks newline text ≡ true
    → n ≤ length text
    → lacks newline (take n (text ++ rest)) ≡ true
take-lacks zero text rest h l = refl
take-lacks (suc n) [] rest h l = absurd (omega arith)
take-lacks (suc n) (b ∷ text) rest h l =
    ground (arith, h, take-lacks n text rest (ground (arith, h)) (omega arith))
