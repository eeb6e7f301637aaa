-- ===== src/Core/Unit/Lifecycle.antt =====
-- What the transition table of crates/trace-core/src/unit.rs allows over a whole history of a unit.
use traceability.Base.{
  String, true, false, List, [], ◌∷◌, Memᴰ, Result, ok, err, ◌≡◌, refl, sym, ap, ◌∙◌, ◌≢◌, ◌↔◌, ◌⊎◌,
  inl, inr, arith, Bool-cases,
}
use traceability.Core.Error.{UnitUid, CoreError, retired_uid}
use traceability.Core.Unit.{
  UnitState, born, marked, in_process, held, quarantined, reworking, completed, shipped, scrapped,
  is_terminal, accepts_work, can_transition_to, is_scrapped, illegal_move, TracedUnit,
  transition_to,
}

-- A state is terminal exactly when the table allows no move out of it.
is_terminal_iff :
    (s : UnitState)
    → (is_terminal s ≡ true) ↔ ((next : UnitState) → can_transition_to s next ≡ false)
unfolding is_terminal can_transition_to
is_terminal_iff scrapped = (λ h next. refl, λ h. refl)
is_terminal_iff _ = (λ h. cc, λ h. cc (h scrapped))

-- What a call leaves: the unit, and whether it was refused.
abbrev pub Outcome : Type 0
Outcome = TracedUnit × Result CoreError (Unit {0})

-- `?`: go on with the unit after a success, stop at a refusal.
abbrev pub and_then : Outcome → (TracedUnit → Outcome) → Outcome
and_then (u, ok done) k = k u
and_then (u, err e) k = (u, err e)

after_gone :
    (s next : UnitState)
    → (s ≡ shipped) ⊎ (s ≡ scrapped)
    → can_transition_to s next ≡ true
    → (next ≡ quarantined) ⊎ ((next ≡ shipped) ⊎ (next ≡ scrapped))
unfolding can_transition_to
after_gone s next h legal = ground arith

-- A way back to dispatch from each state that is not scrapped.
way_out : UnitState → List UnitState
way_out born = in_process ∷ completed ∷ shipped ∷ []
way_out marked = in_process ∷ completed ∷ shipped ∷ []
way_out in_process = completed ∷ shipped ∷ []
way_out held = in_process ∷ completed ∷ shipped ∷ []
way_out quarantined = in_process ∷ completed ∷ shipped ∷ []
way_out reworking = in_process ∷ completed ∷ shipped ∷ []
way_out completed = shipped ∷ []
way_out shipped = quarantined ∷ in_process ∷ completed ∷ shipped ∷ []
way_out scrapped = []

module _ (uid_text : UnitUid → String) where
  -- The states requested one after the other, until the first refusal.
  unfoldable pub transition_all : TracedUnit → List UnitState → Outcome
  transition_all u [] = (u, ok tt)
  transition_all u (next ∷ rest) =
      and_then (transition_to uid_text u next) (λ u'. transition_all u' rest)

  -- The states requested one after the other, whatever is refused on the way.
  unfoldable pub request_all : TracedUnit → List UnitState → TracedUnit
  request_all u [] = u
  request_all u (next ∷ rest) = request_all (transition_to uid_text u next).0 rest

  transition_to-scrapped :
      (u : TracedUnit) (next : UnitState)
      → u.state ≡ scrapped
      → transition_to uid_text u next ≡ (u, err (retired_uid (uid_text u.uid)))
  unfolding transition_to
  transition_to-scrapped u next h = rw h

  -- Whatever is requested of a scrapped unit, in any order and number, the unit stays exactly as it is,
  -- and each further request is refused with its retired UID.
  scrapped_absorbs :
      (u : TracedUnit) (requests : List UnitState) (next : UnitState)
      → u.state ≡ scrapped
      → (request_all u requests ≡ u)
        × (transition_to uid_text (request_all u requests) next
            ≡ (u, err (retired_uid (uid_text u.uid))))
  unfolding request_all
  scrapped_absorbs u [] next h = (refl, transition_to-scrapped u next h)
  scrapped_absorbs u (r ∷ rs) next h =
      rw (transition_to-scrapped u r h) (scrapped_absorbs u rs next h)

  -- The whole behaviour of one call.
  transition_to_cases :
      (u : TracedUnit) (next : UnitState)
      → (can_transition_to u.state next ≡ true)
          × (transition_to uid_text u next ≡ (record u { state = next }, ok tt))
        ⊎ ((e : CoreError) × (transition_to uid_text u next ≡ (u, err e)))
  unfolding transition_to
  transition_to_cases u next = elim (Bool-cases (is_scrapped u.state)) [
    | inl gone ↦ inr (retired_uid (uid_text u.uid), rw gone)
    | inr here ↦ elim (Bool-cases (can_transition_to u.state next)) [
      | inl legal ↦ inl (legal, rw (here, legal))
      | inr illegal ↦ inr (illegal_move u.state next, rw (here, illegal))
    ]
  ]

  transition_all-cons :
      (u : TracedUnit) (next : UnitState) (rest : List UnitState)
      → (transition_all u (next ∷ rest)).1 ≡ ok tt
      → (can_transition_to u.state next ≡ true)
        × (transition_all u (next ∷ rest) ≡ transition_all (record u { state = next }) rest)
  unfolding transition_all
  transition_all-cons u next rest h = elim (transition_to_cases u next) [
    | inl (legal, moved) ↦ (legal, rw moved)
    | inr (e, refused) ↦ absurd (ground (arith, refused))
  ]

  gone_needs_quarantine :
      (u : TracedUnit) (path : List UnitState)
      → (u.state ≡ shipped) ⊎ (u.state ≡ scrapped)
      → (transition_all u path).1 ≡ ok tt
      → accepts_work (transition_all u path).0.state ≡ true
      → Memᴰ quarantined path
  unfolding transition_all accepts_work
  gone_needs_quarantine u [] s h w = absurd (ground arith)
  gone_needs_quarantine u (next ∷ rest) s h w =
      let (legal, same) = transition_all-cons u next rest h in
      elim (after_gone u.state next s legal) [
        | inl q ↦ Memᴰ.head (sym q)
        | inr gone ↦ Memᴰ.tail (
            gone_needs_quarantine (record u { state = next }) rest gone (rw same at h)
              (ap (λ (o : Outcome). accepts_work o.0.state) (sym same) ∙ w))
      ]

  -- Whatever accepted requests lead a shipped unit to a state that accepts work, quarantine is among
  -- them.
  pub shipped_needs_quarantine :
      (u : TracedUnit) (path : List UnitState)
      → u.state ≡ shipped
      → (transition_all u path).1 ≡ ok tt
      → accepts_work (transition_all u path).0.state ≡ true
      → Memᴰ quarantined path
  shipped_needs_quarantine u path s h w = gone_needs_quarantine u path (inl s) h w

  way_out-ships :
      (u : TracedUnit) (s : UnitState)
      → u.state ≡ s
      → s ≢ scrapped
      → transition_all u (way_out s) ≡ (record u { state = shipped }, ok tt)
  unfolding transition_all transition_to way_out
  way_out-ships u scrapped e h = absurd (h refl)
  way_out-ships u _ e h = rw e

  -- No state but `scrapped` is a dead end: from each there are requests that are all accepted and
  -- that leave the unit shipped, with nothing else of it changed.
  pub can_ship :
      (u : TracedUnit)
      → u.state ≢ scrapped
      → (path : List UnitState) × (transition_all u path ≡ (record u { state = shipped }, ok tt))
  can_ship u h = (way_out u.state, way_out-ships u u.state refl h)

  -- No unit goes back to `born`: after accepted requests, at least one, it is in another state.
  never_reborn :
      (u : TracedUnit) (next : UnitState) (rest : List UnitState)
      → (transition_all u (next ∷ rest)).1 ≡ ok tt
      → (transition_all u (next ∷ rest)).0.state ≢ born
  unfolding transition_all can_transition_to
  never_reborn u next [] h = ground (arith, transition_all-cons u next [] h)
  never_reborn u next (n ∷ rest) h =
      let (legal, same) = transition_all-cons u next (n ∷ rest) h in
      rw same (never_reborn (record u { state = next }) n rest (rw same at h))
