-- ===== src/Updater/Manifest/Decision.antt =====
-- Which releases an edge box installs (`Manifest::decide`, crates/trace-updater/src/manifest.rs).
use traceability.Base.{
  ◌≡◌, refl, sym, ap, ◌∙◌, ◌≢◌, ◌↔◌, ◌⊎◌, inl, inr, String, Bool, true, false, Option, none, some,
  ok, ◌>>=◌, >>=-eq-ok, str_eq, any, is_empty, Bool-cases, arith,
}
use traceability.Sign.Envelopes.{map_err-eq-ok}
use traceability.Updater.Manifest.{
  malformed_version, Manifest, Semver, install, parse_version, parsed_version, check_min_installed,
  compare_versions, in_cohort, decide,
}

module _ {Version : Type 0} (semver : Semver Version) where
  -- The installed version satisfies the minimum that a manifest names.
  pub data AtLeast (installed : Version) : Option String → Type 0 where
    no_minimum : AtLeast installed none
    at_least :
        {value : String} (min : Version)
        → semver.parse value ≡ ok min
        → semver.older installed min ≡ false
        → AtLeast installed (some value)

  check_min_installed-ok :
      (value : Option String) (installed offered : Version) (u : Unit {0})
      → (check_min_installed semver value installed offered ≡ ok u) ↔ AtLeast installed value
  unfolding check_min_installed parse_version
  check_min_installed-ok none installed offered u = (λ h. no_minimum, λ m. refl)
  check_min_installed-ok (some value) installed offered u = (to, from)
    where
      to :
          check_min_installed semver (some value) installed offered ≡ ok u
          → AtLeast installed (some value)
      to h =
          let (min, p, rest) = >>=-eq-ok (parse_version semver value) _ h in
          elim (Bool-cases (semver.older installed min)) [
            | inl below ↦ absurd (ground (arith, below, rest))
            | inr enough ↦
                at_least min ((map_err-eq-ok (malformed_version value) (semver.parse value)).0 p)
                  enough
          ]

      from :
          AtLeast installed (some value)
          → check_min_installed semver (some value) installed offered ≡ ok u
      from (at_least min p enough) =
          rw ((map_err-eq-ok (malformed_version value) (semver.parse value)).1 p, enough) refl

  compare_versions-install :
      (rollback : Bool) (installed offered v : Version)
      → (compare_versions semver rollback installed offered ≡ ok (install v)) ↔ (
          (offered ≡ v)
          × (semver.same v installed ≡ false)
          × ((semver.older v installed ≡ false) ⊎ (rollback ≡ true)))
  unfolding compare_versions
  compare_versions-install rollback installed offered v = (to, from)
    where
      to :
          compare_versions semver rollback installed offered ≡ ok (install v)
          → (offered ≡ v)
            × (semver.same v installed ≡ false)
            × ((semver.older v installed ≡ false) ⊎ (rollback ≡ true))
      to h = elim (Bool-cases (semver.same offered installed)) [
        | inl same ↦ absurd (ground (arith, same, h))
        | inr differ ↦ elim (Bool-cases (semver.older offered installed)) [
          | inr newer ↦
              let e : offered ≡ v = ground (arith, differ, newer, h) in
              (e, ground (arith, e, differ), inl (ground (arith, e, newer)))
          | inl older ↦ elim (Bool-cases rollback) [
            | inl marked ↦
                let e : offered ≡ v = ground (arith, differ, older, marked, h) in
                (e, ground (arith, e, differ), inr marked)
            | inr plain ↦ absurd (ground (arith, differ, older, plain, h))
          ]
        ]
      ]

      from :
          (offered ≡ v)
            × (semver.same v installed ≡ false)
            × ((semver.older v installed ≡ false) ⊎ (rollback ≡ true))
          → compare_versions semver rollback installed offered ≡ ok (install v)
      from (e, d, inl newer) = rw (e, d, newer) refl
      from (e, d, inr marked) = elim (Bool-cases (semver.older v installed)) [
        | inl older ↦ rw (e, d, older, marked) refl
        | inr newer ↦ rw (e, d, newer) refl
      ]

  decide_within :
      (m : Manifest) (installed : Version) (cohort : String)
      → in_cohort semver m.cohorts cohort ≡ true
      → decide semver m installed cohort ≡ (
          parsed_version semver m >>= λ offered.
          check_min_installed semver m.min_installed_version installed offered >>= λ _.
          compare_versions semver m.rollback installed offered)
  unfolding decide in_cohort
  decide_within m installed cohort inside = elim (Bool-cases (is_empty m.cohorts)) [
    | inl e ↦ rw e refl
    | inr e ↦
        let named : any (λ c. str_eq c cohort) m.cohorts ≡ true = rw e at inside in
        rw (e, named) refl
  ]

  decide_outside :
      (m : Manifest) (installed : Version) (cohort : String) (v : Version)
      → in_cohort semver m.cohorts cohort ≡ false
      → decide semver m installed cohort ≢ ok (install v)
  unfolding decide in_cohort
  decide_outside m installed cohort v out h = ground (arith, out, h)

  -- A release is installed exactly if this box is in its cohorts, its version parses and differs from
  -- the installed one, the installed version reaches the minimum it names, and it is no older than
  -- the installed version unless it is marked as a rollback.
  pub decide-install_iff :
      (m : Manifest) (installed : Version) (cohort : String) (v : Version)
      → (decide semver m installed cohort ≡ ok (install v)) ↔ (
          (in_cohort semver m.cohorts cohort ≡ true)
          × (semver.parse m.version ≡ ok v)
          × AtLeast installed m.min_installed_version
          × (semver.same v installed ≡ false)
          × ((semver.older v installed ≡ false) ⊎ (m.rollback ≡ true)))
  unfolding decide in_cohort parsed_version parse_version
  decide-install_iff m installed cohort v = (to, from)
    where
      to :
          decide semver m installed cohort ≡ ok (install v)
          → (in_cohort semver m.cohorts cohort ≡ true)
            × (semver.parse m.version ≡ ok v)
            × AtLeast installed m.min_installed_version
            × (semver.same v installed ≡ false)
            × ((semver.older v installed ≡ false) ⊎ (m.rollback ≡ true))
      to h = elim (Bool-cases (in_cohort semver m.cohorts cohort)) [
        | inr out ↦ absurd (decide_outside m installed cohort v out h)
        | inl inside ↦
            let (offered, p, h1) =
              >>=-eq-ok (parsed_version semver m) _
                (sym (decide_within m installed cohort inside) ∙ h) in
            let (u, n, h2) =
              >>=-eq-ok (check_min_installed semver m.min_installed_version installed offered) _
                h1 in
            let (e, d, r) = (compare_versions-install m.rollback installed offered v).0 h2 in
            (
              inside,
              (map_err-eq-ok (malformed_version m.version) (semver.parse m.version)).0 p ∙ ap ok e,
              (check_min_installed-ok m.min_installed_version installed offered u).0 n,
              d,
              r,
            )
      ]

      from :
          (in_cohort semver m.cohorts cohort ≡ true)
            × (semver.parse m.version ≡ ok v)
            × AtLeast installed m.min_installed_version
            × (semver.same v installed ≡ false)
            × ((semver.older v installed ≡ false) ⊎ (m.rollback ≡ true))
          → decide semver m installed cohort ≡ ok (install v)
      from (inside, p, n, d, r) =
          decide_within m installed cohort inside
          ∙ rw
              (
                (map_err-eq-ok (malformed_version m.version) (semver.parse m.version)).1 p,
                (check_min_installed-ok m.min_installed_version installed v tt).1 n,
              )
              ((compare_versions-install m.rollback installed v v).1 (refl, d, r))
