-- ===== src/Core/Engine/Enforced.antt =====
-- What each gate of crates/trace-core/src/engine.rs demands, and so what a unit that `try_advance` let
-- through has been checked for.
use traceability.Base.{
  ℕ, ◌≤◌, String, true, List, Option, none, some, ◌≡◌, refl, ◌↔◌, ◌⊎◌, inl, inr, arith, str_eq,
  str_eq_iff, if◌then◌else◌, all, Memᴰ, all-get, Bool-cases,
}
use mathlib.Core.Path.{subst}
use traceability.Core.Error.{UnitUid, OperationSeq}
use traceability.Core.Route.{
  Gate, kind, RouteOperation, Route, required, precondition, mark_verified, is_output, contains,
  operation, predecessor_satisfied, predecessors_satisfied,
}
use traceability.Core.Config.{MarkMethod, no_mark}
use traceability.Core.Engine.{MarkVerification, OperationContext, pass_gate, is_completed}
use traceability.Core.Engine.Gates.{
  is_unmarked, check_grade, check_read, check_mark, check_precondition, evaluate_gate,
}
use traceability.Core.Engine.Advancing.{try_advance}
use traceability.Core.Engine.Safety.{try_advance-completed_iff}

-- The grade that was read is no worse than the minimum, if there is one: a later letter is worse.
abbrev pub IsGradeEnough : Option ℕ → Option ℕ → Type 0
IsGradeEnough none grade = Unit
IsGradeEnough (some min) none = ⊥
IsGradeEnough (some min) (some actual) = actual ≤ min

-- The mark was read back, and carries the text of this unit's own UID at a sufficient grade.
pub record IsMarkGood (intended : String) (min : Option ℕ) (read : Option MarkVerification)
    : Type 0 where
  pub verification : MarkVerification
  pub was_read : read ≡ some verification
  pub same : verification.decoded ≡ intended
  pub graded : IsGradeEnough min verification.grade

module _ (F : Type 0) where
  grade_iff :
      (kind : String) (min grade : Option ℕ)
      → ((check_grade {F = F} kind min grade).passed ≡ true) ↔ IsGradeEnough min grade
  grade_iff kind none grade = (λ h. tt, λ h. refl)
  grade_iff kind (some min) none = (λ h. cc, λ h. absurd h)
  grade_iff kind (some min) (some actual) = (λ h. ground (arith, h), λ h. ground (arith, h))

  read_iff :
      (kind intended : String) (min : Option ℕ) (read : Option MarkVerification)
      → ((check_read {F = F} kind intended min read).passed ≡ true) ↔ IsMarkGood intended min read
  read_iff kind intended min none = (λ h. cc, λ g. cc (g.was_read))
  read_iff kind intended min (some v) = elim (Bool-cases (str_eq v.decoded intended)) [
    | inl same ↦ (
      λ h. record {
        verification = v;
        was_read = refl;
        same = (str_eq_iff v.decoded intended).0 same;
        graded = (grade_iff kind min v.grade).0 (rw same at h);
      },
      λ g.
          let e : g.verification ≡ v = ground (arith, g.was_read) in
          rw same (
            (grade_iff kind min v.grade).1
              (subst (λ (w : MarkVerification). IsGradeEnough min w.grade) e g.graded)),
    )
    | inr other ↦ (
      λ h. absurd (ground (arith, other, h)),
      λ g. absurd (ground (arith, other, g.was_read, g.same, str_eq_iff v.decoded intended)),
    )
  ]

  mark_iff :
      (kind : String) (method : MarkMethod) (intended : String) (min : Option ℕ)
      (read : Option MarkVerification)
      → ((if is_unmarked method
            then pass_gate kind
            else check_read {F = F} kind intended min read).passed
          ≡ true)
        ↔ ((method ≡ no_mark) ⊎ IsMarkGood intended min read)
  mark_iff kind no_mark intended min read = (λ h. inl refl, λ h. refl)
  mark_iff kind _ intended min read = (
    λ h. inr ((read_iff kind intended min read).0 h),
    elim [ inl e ↦ cc | inr g ↦ (read_iff kind intended min read).1 g ],
  )

required-contains :
    (r : Route) (completed : List OperationSeq) (p : OperationSeq) (pred : RouteOperation)
    → operation r p ≡ some pred
    → pred.requirement ≡ required
    → predecessor_satisfied r completed p ≡ true
    → contains completed p ≡ true
unfolding predecessor_satisfied
required-contains r completed p pred e q h = ground (arith, e, q, h)

module _ (uid_text : UnitUid → String) {F : Type 0} (ctx : OperationContext F) where
  abbrev Passes : Gate → Type 0
  Passes g = (evaluate_gate uid_text g ctx).passed ≡ true

  -- The mark gate passes exactly when the revision carries no mark at all, or the mark that was read
  -- back is this unit's own at a sufficient grade.
  pub mark_verified_iff : Passes mark_verified ↔ (
      (ctx.revision.mark_method ≡ no_mark)
      ⊎ IsMarkGood (uid_text ctx.unit.uid) ctx.revision.min_mark_grade ctx.mark_verification)
  unfolding evaluate_gate check_mark kind
  mark_verified_iff =
      mark_iff F "MARK_VERIFIED" ctx.revision.mark_method (uid_text ctx.unit.uid)
        ctx.revision.min_mark_grade ctx.mark_verification

  precondition_passed :
      Passes precondition
      → all (predecessor_satisfied ctx.route ctx.completed) ctx.operation.predecessors ≡ true
  unfolding evaluate_gate check_precondition predecessors_satisfied
  precondition_passed h = ground (arith, h)

  -- Behind a precondition gate, an advance means that each required predecessor is complete.
  pub precondition_enforced :
      (p : OperationSeq) (pred : RouteOperation)
      → Memᴰ precondition ctx.operation.gates
      → is_completed (try_advance uid_text ctx) ≡ true
      → Memᴰ p ctx.operation.predecessors
      → operation ctx.route p ≡ some pred
      → pred.requirement ≡ required
      → contains ctx.completed p ≡ true
  precondition_enforced p pred m done mp e r =
      let passed : Passes precondition =
        (try_advance-completed_iff uid_text ctx).0 done precondition
          (m, unfold is_output in refl) in
      required-contains ctx.route ctx.completed p pred e r (
        all-get (predecessor_satisfied ctx.route ctx.completed) ctx.operation.predecessors
          (precondition_passed passed) mp)
