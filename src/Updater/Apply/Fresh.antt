-- ===== src/Updater/Apply/Fresh.antt =====
-- A version and the name of its release (crates/trace-updater/src/apply.rs): what is installed is never
-- the release that is current.
use traceability.Base.{
  String, true, Option, none, some, Result, ok, err, ◌≡◌, ◌≢◌, sym, ap, ◌∙◌, inl, inr, str_eq,
  str_eq_iff, Bool-cases,
}
use mathlib.Core.Path.{subst}
use traceability.Updater.Manifest.{Manifest, Semver, install, decide}
use traceability.Updater.Manifest.Decision.{decide-install_iff}
use traceability.Updater.Apply.{link_version, or_none, or_zero}
use traceability.Updater.Apply.Calls.{Dir}
use traceability.Updater.Apply.Swap.{IsFresh}

-- Documented of semver: the text of a version and the version are one, and `==` is reflexive.
pub record IsSemver {Version : Type 0} (semver : Semver Version) : Type 0 where
  pub parse_print : (v : Version) → semver.parse (semver.to_string v) ≡ ok v
  pub print_parse : (s : String) (v : Version) → semver.parse s ≡ ok v → semver.to_string v ≡ s
  pub same_refl : (v : Version) → semver.same v v ≡ true

module _ {Version : Type 0} (semver : Semver Version) (laws : IsSemver semver) where
  or_none-some : (r : Result String Version) (v : Version) → or_none semver r ≡ some v → r ≡ ok v
  or_none-some (ok u) v h = cc
  or_none-some (err detail) v h = cc

  link_version-print :
      (name : String) (v : Version)
      → link_version semver (some name) ≡ some v
      → semver.to_string v ≡ name
  link_version-print name v h = laws.print_parse name v (or_none-some (semver.parse name) v h)

  pub link_version_cases :
      (cur : Option String) (v : Version)
      → link_version semver cur ≡ some v
      → cur ≡ some (semver.to_string v)
  link_version_cases none v h = cc
  link_version_cases (some name) v h = ap some (sym (link_version-print name v h))

  link_version_of_print : (v : Version) → link_version semver (some (semver.to_string v)) ≡ some v
  link_version_of_print v = ap (or_none semver) (laws.parse_print v)

  install_current :
      (zero : Version) (m : Manifest) (cohort : String) (target : Version) (cur : Option String)
      → decide semver m (or_zero semver zero (link_version semver cur)) cohort ≡ ok (install target)
      → link_version semver cur ≢ some target
  install_current zero m cohort target cur h e =
      let same = laws.same_refl target in
      let other =
        ((decide-install_iff semver m target cohort target).0 (
          subst (λ x. decide semver m (or_zero semver zero x) cohort ≡ ok (install target)) e
            h)).3 in
      cc

  -- What is installed is not the current release.
  pub install-IsFresh :
      (zero : Version) (m : Manifest) (cohort : String) (target : Version) (cur : Option String)
      (rel : String → Option Dir)
      → decide semver m (or_zero semver zero (link_version semver cur)) cohort ≡ ok (install target)
      → IsFresh cur rel (semver.to_string target)
  install-IsFresh zero m cohort target cur rel h name e =
      elim (Bool-cases (str_eq name (semver.to_string target))) [
        | inr d ↦ d
        | inl s ↦ absurd (
            install_current zero m cohort target cur h (
              ap (link_version semver) (e ∙ ap some ((str_eq_iff name _).0 s))
              ∙ link_version_of_print target))
      ]
