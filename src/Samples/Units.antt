-- ===== src/Samples/Units.antt =====
-- Examples for the unit lifecycle and the route of the samples.
use traceability.Base.{[], ◌∷◌, ok, ◌≡◌, ◌≢◌, refl, true, Memᴰ}
use traceability.Core.Unit.{
  born, in_process, quarantined, shipped, scrapped, accepts_work, can_transition_to, transition_to,
}
use traceability.Core.Unit.Lifecycle.{transition_all, shipped_needs_quarantine}
use traceability.Samples.{uid_text, unit_in}

return_accepted :
    (transition_all uid_text (unit_in shipped) (quarantined ∷ in_process ∷ [])).1 ≡ ok tt
unfolding transition_all transition_to can_transition_to
return_accepted = refl

return_works :
    accepts_work (transition_all uid_text (unit_in shipped) (quarantined ∷ in_process ∷ [])).0.state
    ≡ true
unfolding transition_all transition_to can_transition_to accepts_work
return_works = refl

shipped_needs_quarantine_example : Memᴰ quarantined (quarantined ∷ in_process ∷ [])
shipped_needs_quarantine_example =
    shipped_needs_quarantine uid_text (unit_in shipped) (quarantined ∷ in_process ∷ []) refl
      return_accepted return_works

born_not_scrapped : born ≢ scrapped
born_not_scrapped e = cc
