-- ===== src/Core/Engine/Collected.antt =====
-- What the operator, component and data gates of crates/trace-core/src/engine.rs demand.
use traceability.Base.{
  ℕ, String, true, false, not, List, [], ◌∷◌, ◌++◌, Option, none, some, ◌≡◌, refl, sym, ◌∙◌, ◌≢◌,
  ◌↔◌, ◌⊎◌, inl, inr, arith, find?, is_empty, filter, Memᴰ, Bool-cases, Option-cases, find?-eq-none,
  filter-empty, empty-filter, find?-none, &&-eq-true, ◌&&◌,
}
use traceability.Core.Error.{RowId, UnitUid}
use traceability.Core.Route.{
  Gate, OperationDef, kind, operator_auth, component_verify, data_capture, contains,
}
use traceability.Core.Config.{Operator, is_certified_for}
use traceability.Core.Dcp.{pass, DataCollectionPoint, applies_to}
use traceability.Core.Engine.{ComponentScan, CapturedValue, CaptureProblem, OperationContext}
use traceability.Core.Engine.Gates.{
  is_none, check_login, check_lines, check_operator, check_capture, captured_for, capture_problem,
  problem_of, problems_of, scanned_lines, check_components, evaluate_gate,
}

login_iff :
    (F : Type 0) (kind : String) (def : OperationDef) (o : Option Operator)
    → ((check_login {F = F} kind def o).passed ≡ true) ↔ (
        (op : Operator) × (o ≡ some op)
        × (op.active ≡ true)
        × ((skill : RowId) → def.required_skill ≡ some skill → is_certified_for op skill ≡ true))
login_iff F kind def none = (λ h. cc, λ (op, e, a, s). cc)
login_iff F kind def (some op) = (to, from)
  where
    to :
        (check_login {F = F} kind def (some op)).passed ≡ true
        → (op' : Operator) × (some op ≡ some op')
          × (op'.active ≡ true)
          × ((skill : RowId) → def.required_skill ≡ some skill → is_certified_for op' skill ≡ true)
    to h = (op, refl, ground (arith, h), λ skill e. ground (arith, h, e))

    from :
        ((op' : Operator) × (some op ≡ some op')
          × (op'.active ≡ true)
          × ((skill : RowId) → def.required_skill ≡ some skill → is_certified_for op' skill ≡ true))
        → (check_login {F = F} kind def (some op)).passed ≡ true
    from (op', e, a, s) = elim (Option-cases def.required_skill) [
      | inl free ↦ ground (arith, e, a, free)
      | inr (skill, needed) ↦ ground (arith, e, a, needed, s skill needed)
    ]

mem_of_scanned :
    (id : RowId) (scans : List ComponentScan)
    → contains (scanned_lines scans) id ≡ true
    → (s : ComponentScan) × Memᴰ s scans × (s.bom_line_id ≡ some id)
unfolding scanned_lines
mem_of_scanned id [] h = cc
mem_of_scanned id (s ∷ scans) h = elim (Bool-cases (contains (scanned_lines scans) id)) [
  | inl later ↦ let (s', m, e) = mem_of_scanned id scans later in (s', Memᴰ.tail m, e)
  | inr here ↦ (s, Memᴰ.head refl, ground (arith, h, here))
]

scanned_of_mem :
    (id : RowId) {s : ComponentScan} (scans : List ComponentScan)
    → Memᴰ s scans
    → s.bom_line_id ≡ some id
    → contains (scanned_lines scans) id ≡ true
unfolding scanned_lines
scanned_of_mem id [] m e = elim m [ ]
scanned_of_mem id (s' ∷ scans) (Memᴰ.head h) e = ground (arith, h, e)
scanned_of_mem id (s' ∷ scans) (Memᴰ.tail m) e = ground (arith, scanned_of_mem id scans m e)

is_none_of_ne : (o : Option RowId) → o ≢ none → is_none o ≡ false
is_none_of_ne none h = absurd (h refl)
is_none_of_ne (some id) h = refl

module _ (F : Type 0) (kind : String) (ids : List RowId) (scans : List ComponentScan) where
  abbrev find_bad : Option ComponentScan
  find_bad = find? (λ (s : ComponentScan). is_none s.bom_line_id) scans

  abbrev AllScanned : Type 0
  AllScanned =
      (id : RowId) → Memᴰ id ids → (s : ComponentScan) × Memᴰ s scans × (s.bom_line_id ≡ some id)

  abbrev AllMatched : Type 0
  AllMatched = (s : ComponentScan) → Memᴰ s scans → s.bom_line_id ≢ none

  lines_sound :
      (o : Option ComponentScan)
      → find_bad ≡ o
      → (check_lines {F = F} kind ids scans o).passed ≡ true
      → AllMatched × AllScanned
  lines_sound (some bad) e h = cc
  lines_sound none e h = (
    λ s m none_here.
        let matched = find?-eq-none (λ (s : ComponentScan). is_none s.bom_line_id) scans e m in
        ground (arith, matched, none_here),
    λ id m.
        let found =
          filter-empty (λ id. not (contains (scanned_lines scans) id)) ids (ground (arith, h)) m in
        mem_of_scanned id scans (ground (arith, found)),
  )

  lines_complete :
      AllMatched → AllScanned → (check_lines {F = F} kind ids scans find_bad).passed ≡ true
  lines_complete matched scanned =
      let no_bad : find_bad ≡ none =
        find?-none (λ (s : ComponentScan). is_none s.bom_line_id) scans
          (λ s m. is_none_of_ne s.bom_line_id (matched s m)) in
      let nothing : is_empty (filter (λ id. not (contains (scanned_lines scans) id)) ids) ≡ true =
        empty-filter (λ id. not (contains (scanned_lines scans) id)) ids
          λ id m. let (s, m', e) = scanned id m in rw (scanned_of_mem id scans m' e) in
      rw no_bad (rw nothing)

module _ (F : Type 0) (index : ℕ) (captured : List (CapturedValue F)) where
  -- What a point demands of the values that were captured.
  abbrev Meets : DataCollectionPoint F → Option (CapturedValue F) → Type 0
  Meets dcp o =
      ((c : CapturedValue F) × (o ≡ some c) × (c.verdict ≡ pass))
      ⊎ ((o ≡ none) × (dcp.mandatory ≡ false))

  problem_sound :
      (dcp : DataCollectionPoint F) (o : Option (CapturedValue F))
      → is_empty (problem_of dcp o) ≡ true
      → Meets dcp o
  problem_sound dcp none h = inr (refl, ground (arith, h))
  problem_sound dcp (some c) h = inl (c, refl, ground (arith, h))

  problem_complete :
      (dcp : DataCollectionPoint F) (o : Option (CapturedValue F))
      → Meets dcp o
      → is_empty (problem_of dcp o) ≡ true
  problem_complete dcp o (inl (c, e, p)) = rw (e, p)
  problem_complete dcp o (inr (e, q)) = rw (e, q)

  abbrev Wanted : DataCollectionPoint F → Type 0
  Wanted dcp = applies_to dcp.sample_rule index ≡ true → Meets dcp (captured_for dcp.id captured)

  point_iff :
      (dcp : DataCollectionPoint F)
      → (is_empty (capture_problem index captured dcp) ≡ true) ↔ Wanted dcp
  unfolding capture_problem
  point_iff dcp = elim (Bool-cases (applies_to dcp.sample_rule index)) [
    | inl asked ↦ (
      λ h a. problem_sound dcp (captured_for dcp.id captured) (rw asked at h),
      λ w. rw asked (problem_complete dcp (captured_for dcp.id captured) (w asked)),
    )
    | inr skipped ↦ (λ h a. absurd (ground (arith, skipped, a)), λ w. rw skipped)
  ]

  is_empty-append :
      (xs ys : List (CaptureProblem F)) → is_empty (xs ++ ys) ≡ (is_empty xs && is_empty ys)
  is_empty-append [] ys = refl
  is_empty-append (x ∷ xs) ys = refl

  problems_sound :
      (dcps : List (DataCollectionPoint F))
      → is_empty (problems_of index captured dcps) ≡ true
      → (dcp : DataCollectionPoint F) → Memᴰ dcp dcps
      → Wanted dcp
  unfolding problems_of
  problems_sound [] h dcp m = elim m [ ]
  problems_sound (d ∷ dcps) h dcp m =
      let both =
        &&-eq-true (is_empty (capture_problem index captured d))
          (is_empty (problems_of index captured dcps))
          (sym
              (is_empty-append (capture_problem index captured d) (problems_of index captured dcps))
            ∙ h) in
      at_mem both.0 (problems_sound dcps both.1 dcp) m
    where
      at_mem :
          is_empty (capture_problem index captured d) ≡ true
          → (Memᴰ dcp dcps → Wanted dcp)
          → Memᴰ dcp (d ∷ dcps)
          → Wanted dcp
      at_mem here rec (Memᴰ.head e) = (point_iff dcp).0 (rw e here)
      at_mem here rec (Memᴰ.tail m') = rec m'

  problems_complete :
      (dcps : List (DataCollectionPoint F))
      → ((dcp : DataCollectionPoint F) → Memᴰ dcp dcps → Wanted dcp)
      → is_empty (problems_of index captured dcps) ≡ true
  unfolding problems_of
  problems_complete [] w = refl
  problems_complete (d ∷ dcps) w =
      rw (is_empty-append (capture_problem index captured d) (problems_of index captured dcps)) (
        rw ((point_iff d).1 (w d (Memᴰ.head refl)))
          (problems_complete dcps (λ dcp m. w dcp (Memᴰ.tail m))))

module _ (uid_text : UnitUid → String) {F : Type 0} (ctx : OperationContext F) where
  abbrev Passes : Gate → Type 0
  Passes g = (evaluate_gate uid_text g ctx).passed ≡ true

  -- The operator gate passes exactly when somebody is logged in, active, and certified for the skill
  -- that the operation requires, if it requires one.
  operator_auth_iff : Passes operator_auth ↔ (
      (op : Operator) × (ctx.operator ≡ some op)
      × (op.active ≡ true)
      × ((skill : RowId)
          → ctx.operation_def.required_skill ≡ some skill
          → is_certified_for op skill ≡ true))
  unfolding evaluate_gate check_operator kind
  operator_auth_iff = login_iff F "OPERATOR_AUTH" ctx.operation_def ctx.operator

  -- The component gate passes exactly when every scan matched the BOM and every line that the gate
  -- lists was scanned.
  pub component_verify_iff :
      (ids : List RowId)
      → Passes (component_verify ids) ↔ (
          ((s : ComponentScan) → Memᴰ s ctx.component_scans → s.bom_line_id ≢ none)
          × ((id : RowId)
              → Memᴰ id ids
              → (s : ComponentScan) × Memᴰ s ctx.component_scans × (s.bom_line_id ≡ some id)))
  unfolding evaluate_gate check_components kind
  component_verify_iff ids = (
    λ h.
        lines_sound F "COMPONENT_VERIFY" ids ctx.component_scans
          (find_bad F "COMPONENT_VERIFY" ids ctx.component_scans) refl h,
    λ (matched, scanned).
        lines_complete F "COMPONENT_VERIFY" ids ctx.component_scans matched scanned,
  )

  -- The data gate passes exactly when every point that the sampling selects for this unit has a
  -- value, if it is mandatory, and no value that failed its limits.
  pub data_capture_iff : Passes data_capture ↔ (
      (dcp : DataCollectionPoint F)
      → Memᴰ dcp ctx.dcps
      → applies_to dcp.sample_rule ctx.unit.index_in_job ≡ true
      → ((c : CapturedValue F) × (captured_for dcp.id ctx.captured ≡ some c) × (c.verdict ≡ pass))
        ⊎ ((captured_for dcp.id ctx.captured ≡ none) × (dcp.mandatory ≡ false)))
  unfolding evaluate_gate check_capture kind
  data_capture_iff = (
    λ h. problems_sound F ctx.unit.index_in_job ctx.captured ctx.dcps (ground (arith, h)),
    λ w. rw (problems_complete F ctx.unit.index_in_job ctx.captured ctx.dcps w),
  )
