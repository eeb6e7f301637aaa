-- ===== src/Core/Engine/Safety.antt =====
-- When `try_advance` (crates/trace-core/src/engine.rs) lets a unit through, what it releases, and what
-- the line can do next.
use traceability.Base.{
  String, Bool, true, false, not, List, [], ◌∷◌, ok, ◌≡◌, refl, ◌↔◌, ◌⊎◌, inl, inr, arith, filter,
  is_empty, map, Memᴰ, Bool-cases, mem_of_filter, mem-filter, mem-map,
}
use traceability.Core.Error.{RowId, UnitUid, OperationSeq}
use traceability.Core.Route.{
  Gate, RouteOperation, interlock_out, is_output, insert, ready_operations, is_complete,
}
use traceability.Core.Route.Validate.{validate}
use traceability.Core.Route.Progress.{validated-never_stuck}
use traceability.Core.Engine.{
  OperationContext, GateResult, Effect, release_interlock, Advance, completed, blocked,
  is_completed,
}
use traceability.Core.Engine.Gates.{evaluate_gate}
use traceability.Core.Engine.Advancing.{entry_results, failures_of, effects_of, try_advance}

-- The effects that an answer asks the caller to perform.
abbrev pub effects : {F : Type 0} → Advance F → List Effect
effects (completed gates es next_ready route_complete) = es
effects (blocked gates failures disposition) = []

abbrev pub next_ready : {F : Type 0} → Advance F → List OperationSeq
next_ready (completed gates es next route_complete) = next
next_ready (blocked gates failures disposition) = []

abbrev pub route_complete : {F : Type 0} → Advance F → Bool
route_complete (completed gates es next finished) = finished
route_complete (blocked gates failures disposition) = false

abbrev pub failures : {F : Type 0} → Advance F → List (GateResult F)
failures (completed gates es next finished) = []
failures (blocked gates fs disposition) = fs

-- A gate of the operation that is an entry condition.
abbrev pub IsEntryGate : {F : Type 0} → OperationContext F → Gate → Type 0
IsEntryGate ctx g = Memᴰ g ctx.operation.gates × (is_output g ≡ false)

none_failed_iff :
    {F : Type 0} (p : Gate → GateResult F) (gs : List Gate)
    → (is_empty (failures_of (map p gs)) ≡ true) ↔ ((g : Gate) → Memᴰ g gs → (p g).passed ≡ true)
none_failed_iff p [] = (λ h g m. elim m [ ], λ h. refl)
none_failed_iff p (x ∷ gs) = (to (none_failed_iff p gs).0, from (none_failed_iff p gs).1)
  where
    to :
        (is_empty (failures_of (map p gs)) ≡ true → (g : Gate) → Memᴰ g gs → (p g).passed ≡ true)
        → is_empty (failures_of (map p (x ∷ gs))) ≡ true
        → (g : Gate) → Memᴰ g (x ∷ gs)
        → (p g).passed ≡ true
    to rec h g (Memᴰ.head e) = ground (arith, h, e)
    to rec h g (Memᴰ.tail m) = rec (ground (arith, h)) g m

    from :
        (((g : Gate) → Memᴰ g gs → (p g).passed ≡ true) → is_empty (failures_of (map p gs)) ≡ true)
        → ((g : Gate) → Memᴰ g (x ∷ gs) → (p g).passed ≡ true)
        → is_empty (failures_of (map p (x ∷ gs))) ≡ true
    from rec h = rw (h x (Memᴰ.head refl)) (rec (λ g m. h g (Memᴰ.tail m)))

some_failed :
    {F : Type 0} (p : Gate → GateResult F) (gs : List Gate)
    → is_empty (failures_of (map p gs)) ≡ false
    → (g : Gate) × Memᴰ g gs × ((p g).passed ≡ false) × Memᴰ (p g) (failures_of (map p gs))
some_failed p [] h = absurd (ground (arith, h))
some_failed p (g ∷ gs) h = elim (Bool-cases (p g).passed) [
  | inl good ↦
      let (g', m, bad, kept) = some_failed p gs (ground (arith, good, h)) in
      let kept' : Memᴰ (p g') (failures_of (map p (g ∷ gs))) = rw good kept in
      (g', Memᴰ.tail m, bad, kept')
  | inr bad ↦ (g, Memᴰ.head refl, bad, rw bad (Memᴰ.head refl))
]

release_of_interlock :
    (d : RowId) (gs : List Gate)
    → Memᴰ (interlock_out d) gs
    → Memᴰ (release_interlock d) (effects_of gs)
unfolding effects_of
release_of_interlock d [] m = elim m [ ]
release_of_interlock d (interlock_out e ∷ gs) (Memᴰ.head h) = Memᴰ.head (ground (arith, h))
release_of_interlock d (interlock_out e ∷ gs) (Memᴰ.tail m) =
    Memᴰ.tail (release_of_interlock d gs m)
release_of_interlock d (_ ∷ gs) (Memᴰ.head h) = absurd (ground (arith, h))
release_of_interlock d (_ ∷ gs) (Memᴰ.tail m) = release_of_interlock d gs m

interlock_of_release :
    (d : RowId) (gs : List Gate)
    → Memᴰ (release_interlock d) (effects_of gs)
    → Memᴰ (interlock_out d) gs
unfolding effects_of
interlock_of_release d [] m = elim m [ ]
interlock_of_release d (interlock_out e ∷ gs) (Memᴰ.head h) = Memᴰ.head (ground (arith, h))
interlock_of_release d (interlock_out e ∷ gs) (Memᴰ.tail m) =
    Memᴰ.tail (interlock_of_release d gs m)
interlock_of_release d (_ ∷ gs) m = Memᴰ.tail (interlock_of_release d gs m)

module _ (uid_text : UnitUid → String) {F : Type 0} (ctx : OperationContext F) where
  -- Every entry gate of the operation passes.
  abbrev pub AllPass : Type 0
  AllPass = (g : Gate) → IsEntryGate ctx g → (evaluate_gate uid_text g ctx).passed ≡ true

  abbrev entry_gates : List Gate
  entry_gates = filter (λ g. not (is_output g)) ctx.operation.gates

  all_pass_iff : (is_empty (failures_of (entry_results uid_text ctx)) ≡ true) ↔ AllPass
  all_pass_iff =
      let (to, from) = none_failed_iff (λ g. evaluate_gate uid_text g ctx) entry_gates in
      (
        λ h g e. to h g (mem-filter (λ g. not (is_output g)) ctx.operation.gates e.0 (rw e.1)),
        λ h. from λ g m.
            let (m', e) = mem_of_filter (λ g. not (is_output g)) ctx.operation.gates m in
            h g (m', ground (arith, e)),
      )

  -- The unit advances exactly when every entry gate of the operation passes.
  pub try_advance-completed_iff : (is_completed (try_advance uid_text ctx) ≡ true) ↔ AllPass
  unfolding try_advance is_completed
  try_advance-completed_iff = (λ h. all_pass_iff.0 (ground (arith, h)), λ h. rw (all_pass_iff.1 h))

  -- An interlock is released exactly when the operation names it as an output and every entry gate
  -- passes.
  pub interlock_released_iff :
      (d : RowId)
      → Memᴰ (release_interlock d) (effects (try_advance uid_text ctx))
        ↔ (AllPass × Memᴰ (interlock_out d) ctx.operation.gates)
  unfolding try_advance
  interlock_released_iff d = (to, from)
    where
      to :
          Memᴰ (release_interlock d) (effects (try_advance uid_text ctx))
          → AllPass × Memᴰ (interlock_out d) ctx.operation.gates
      to m = elim (Bool-cases (is_empty (failures_of (entry_results uid_text ctx)))) [
        | inl clear ↦
            let m' =
              interlock_of_release d (filter is_output ctx.operation.gates) (rw clear at m) in
            (all_pass_iff.0 clear, (mem_of_filter is_output ctx.operation.gates m').0)
        | inr failed ↦
            let none_there : Memᴰ (release_interlock d) [] = rw failed at m in elim none_there [ ]
      ]

      from :
          AllPass × Memᴰ (interlock_out d) ctx.operation.gates
          → Memᴰ (release_interlock d) (effects (try_advance uid_text ctx))
      from (h, m) = rw (all_pass_iff.1 h) (
          release_of_interlock d (filter is_output ctx.operation.gates)
            (mem-filter is_output ctx.operation.gates m (unfold is_output in refl)))

  -- On a validated route, a unit that has advanced has either finished the route or has an operation
  -- to go on with among those that the answer lists.
  pub try_advance-live :
      validate ctx.route ≡ ok tt
      → is_completed (try_advance uid_text ctx) ≡ true
      → (route_complete (try_advance uid_text ctx) ≡ true)
        ⊎ ((seq : OperationSeq) × Memᴰ seq (next_ready (try_advance uid_text ctx)))
  unfolding try_advance
  try_advance-live v h =
      let clear = all_pass_iff.1 (try_advance-completed_iff.0 h) in
      let after = insert ctx.operation.seq ctx.completed in
      elim (Bool-cases (is_complete ctx.route after)) [
        | inl finished ↦ inl (rw clear finished)
        | inr missing ↦
            let (op, m) = validated-never_stuck ctx.route after v missing in
            inr (
              op.seq,
              rw clear
                  (mem-map (λ (o : RouteOperation). o.seq) (ready_operations ctx.route after) m),
            )
      ]

  -- A unit that is held back has an entry gate that did not pass, and its result is among the failures
  -- that the answer reports.
  pub try_advance-blocked :
      is_completed (try_advance uid_text ctx) ≡ false
      → (g : Gate) × IsEntryGate ctx g
        × Memᴰ (evaluate_gate uid_text g ctx) (failures (try_advance uid_text ctx))
        × ((evaluate_gate uid_text g ctx).passed ≡ false)
  unfolding try_advance is_completed
  try_advance-blocked h = elim (Bool-cases (is_empty (failures_of (entry_results uid_text ctx)))) [
    | inl clear ↦ absurd (ground (arith, clear, h))
    | inr failed ↦
        let (g, m, bad, kept) =
          some_failed (λ g. evaluate_gate uid_text g ctx) entry_gates failed in
        let (m', e) = mem_of_filter (λ g. not (is_output g)) ctx.operation.gates m in
        (g, (m', ground (arith, e)), rw failed kept, bad)
  ]
