-- ===== src/Updater/Apply/Swap.antt =====
-- What `replace_symlink` and `activate` (crates/trace-updater/src/apply.rs) leave, whichever call fails.
use traceability.Base.{
  String, Bool, true, false, Option, none, some, ◌≡◌, refl, ap, ◌∙◌, str_eq, str_eq_iff, Bool-cases,
  is_empty, inl, inr,
}
use traceability.Updater.Manifest.{Semver, release_dir, current_link}
use traceability.Updater.Apply.{
  Link, current, previous, link_path, tmp_path, tmp_taken, set_tmp, set_link, remove_tmp, make_tmp,
  replace_symlink, remove_release, rename_staged, installed_version, link_version, retain_previous,
  switch_to, activate, keep, unchanged, files_of, partly,
}
use traceability.Updater.Apply.Calls.{Dir, Layout, set, return, ◌>>◌}
use traceability.Updater.Apply.Steps.{
  Triple, then-Triple, bind-Triple, call-Triple, try_exists-Triple,
}

-- A condition that does not read the temporary name of a link.
abbrev pub IgnoresTmp : Link → (Layout → Type 0) → Type 0
IgnoresTmp link P = (b : Bool) (l : Layout) → P l → P (set_tmp link b l)

module _ (link : Link) (P E : Layout → Type 0) (ignores : IgnoresTmp link P)
    (fails : (l : Layout) → P l → E l) where
  remove_tmp-Triple : (found : Bool) → Triple P (remove_tmp link found) (λ u. P) E
  remove_tmp-Triple false = λ w h. h
  remove_tmp-Triple true =
      call-Triple P P E (tmp_path link) (set_tmp link false) unchanged (ignores false) (λ n. fails)

  make_tmp-Triple : Triple P (make_tmp link) (λ u. P) E
  make_tmp-Triple w h = elim (Bool-cases (tmp_taken link w.layout)) [
    | inl taken ↦ rw taken (fails w.layout h)
    | inr free ↦ rw free (
        call-Triple P P E (tmp_path link) (set_tmp link true) unchanged (ignores true) (λ n. fails)
          w h)
  ]

  -- The link changes in the last call, or not at all.
  pub replace_symlink-Triple :
      (v : String) (Q : Layout → Type 0)
      → ((l : Layout) → P l → Q (set_link link v l))
      → Triple P (replace_symlink v link) (λ u. Q) E
  unfolding replace_symlink
  replace_symlink-Triple v Q moved =
      bind-Triple P (λ b. P) (λ u. Q) E _ _ (try_exists-Triple P E (tmp_taken link))
        λ found.
          then-Triple P P (λ u. Q) E _ _ (remove_tmp-Triple found)
            (then-Triple P P (λ u. Q) E _ _ make_tmp-Triple
              (call-Triple P Q E (link_path link) (set_link link v) unchanged moved (λ n. fails)))

-- Nothing changes, and the version is that of the release which `current` names.
pub installed_version-Triple :
    {Version : Type 0} (semver : Semver Version) (P E : Layout → Type 0) (cur : Option String)
    → ((l : Layout) → P l → l.current ≡ cur)
    → ((l : Layout) → P l → E l)
    → Triple P (installed_version semver) (λ found l. P l × (found ≡ link_version semver cur)) E
unfolding installed_version
installed_version-Triple semver P E cur same fails =
    then-Triple P P (λ found l. P l × (found ≡ link_version semver cur)) E _ _
      (call-Triple P P E current_link keep unchanged (λ l h. h) (λ n. fails))
      (λ w h. (h, ap (link_version semver) (same w.layout h)))

-- The value that `retain_previous` returns.
abbrev pub outgoing_of : {Version : Type 0} → Option Version → Version → Option Version
outgoing_of none from = none
outgoing_of (some v) from = some from

-- The state before: the release that `current` names, and the contents of the releases.
module _ (cur : Option String) (rel : String → Option Dir) where
  -- The release that was current is as it was.
  abbrev pub Kept : Layout → Type 0
  Kept l = (name : String) → cur ≡ some name → l.releases name ≡ rel name

  -- It is still the current one.
  abbrev pub Before : Layout → Type 0
  Before l = (l.current ≡ cur) × Kept l

  -- `current` names the release `v`, whose files satisfy `F`; the release before it is kept.
  abbrev pub After : (Dir → Type 0) → String → Layout → Type 0
  After F v l = (l.current ≡ some v) × F (files_of (l.releases v)) × Kept l

  -- `v` is not the name of the current release.
  abbrev pub IsFresh : String → Type 0
  IsFresh v = (name : String) → cur ≡ some name → str_eq name v ≡ false

  module _ (F : Dir → Type 0) (v : String) (fresh : IsFresh v) where
    abbrev pub Prepared : Layout → Type 0
    Prepared l = Before l × F (files_of (l.staging v))

    abbrev pub Ready : Layout → Type 0
    Ready l = Before l × F (files_of (l.releases v))

    set_other :
        (d : Option Dir) (l : Layout)
        → Kept l
        → (name : String) → cur ≡ some name
        → set v d l.releases name ≡ rel name
    set_other d l kept name e = rw (fresh name e) (kept name e)

    set_same : (d : Option Dir) (m : String → Option Dir) → set v d m v ≡ d
    set_same d m = rw ((str_eq_iff v v).1 refl) refl

    remove_release-Triple :
        (found : Bool) → Triple Prepared (remove_release v found) (λ u. Prepared) Before
    remove_release-Triple false = λ w h. h
    remove_release-Triple true =
        call-Triple Prepared Prepared Before (release_dir v) _ _
          (λ l h. ((h.0.0, set_other none l h.0.1), h.1))
          (λ n l h. (h.0.0, set_other (partly n (l.releases v)) l h.0.1))

    rename_staged-Triple : Triple Prepared (rename_staged v) (λ u. Ready) Before
    rename_staged-Triple w h = elim (Bool-cases (is_empty (files_of (w.layout.releases v)))) [
      | inr taken ↦ rw taken h.0
      | inl free ↦ rw free (
          call-Triple Prepared Ready Before (release_dir v) _ unchanged
            (λ l g. (
              (g.0.0, set_other (l.staging v) l g.0.1),
              rw (set_same (l.staging v) l.releases) g.1,
            ))
            (λ n l g. g.0) w h)
    ]

    module _ {Version : Type 0} (semver : Semver Version) where
      retain_previous-Triple :
          (had : Option Version) (from : Version)
          → Triple Ready
              (retain_previous semver had from)
              (λ out l. Ready l × (out ≡ outgoing_of had from))
              Before
      retain_previous-Triple none from = λ w h. (h, refl)
      retain_previous-Triple (some u) from =
          then-Triple Ready Ready (λ out l. Ready l × (out ≡ some from)) Before _ _
            (replace_symlink-Triple previous Ready Before (λ b l h. h) (λ l h. h.0)
              (semver.to_string from) Ready (λ l h. h))
            (λ w h. (h, refl))

      abbrev pub Switched : (from : Version) → Option Version → Layout → Type 0
      Switched from out l = After F v l × (out ≡ outgoing_of (link_version semver cur) from)

      switch_to-Triple :
          (target from : Version) (had : Option Version)
          → semver.to_string target ≡ v
          → had ≡ link_version semver cur
          → Triple Ready (switch_to semver target from had) (Switched from) Before
      switch_to-Triple target from had t e =
          bind-Triple Ready (λ out l. Ready l × (out ≡ outgoing_of had from)) (Switched from) Before
            (retain_previous semver had from)
            (λ out. replace_symlink (semver.to_string target) current >> return out)
            (retain_previous-Triple had from)
            λ out.
              then-Triple (λ l. Ready l × (out ≡ outgoing_of had from)) (Switched from out)
                (Switched from) Before _ _
                (replace_symlink-Triple current (λ l. Ready l × (out ≡ outgoing_of had from)) Before
                  (λ b l h. h) (λ l h. h.0.0) (semver.to_string target) (Switched from out)
                  (λ l h. ((ap some t, h.0.1, h.0.0.1), h.1 ∙ ap (λ x. outgoing_of x from) e)))
                (λ w h. h)

      -- Until the last call `current` names the release it named; then it names the new one, whose files
      -- are the staged ones.
      pub activate-Triple :
          (target from : Version)
          → semver.to_string target ≡ v
          → Triple Prepared (activate semver target from) (Switched from) Before
      unfolding activate
      activate-Triple target from t =
          bind-Triple Prepared (λ b. Prepared) (Switched from) Before _ _
            (try_exists-Triple Prepared Before _)
            λ found.
              then-Triple Prepared Prepared (Switched from) Before
                (remove_release (semver.to_string target) found) _
                (rw t (remove_release-Triple found))
                (then-Triple Prepared Ready (Switched from) Before
                  (rename_staged (semver.to_string target)) _ (rw t rename_staged-Triple)
                  (bind-Triple Ready (λ found l. Ready l × (found ≡ link_version semver cur))
                    (Switched from) Before _ _
                    (installed_version-Triple semver Ready Before cur (λ l h. h.0.0) (λ l h. h.0))
                    λ had w h. switch_to-Triple target from had t h.1 w h.0))
