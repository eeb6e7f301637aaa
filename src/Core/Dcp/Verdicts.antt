-- ===== src/Core/Dcp/Verdicts.antt =====
-- The verdict on a measured value (`DataCollectionPoint::evaluate`, crates/trace-core/src/dcp.rs).
use traceability.Base.{
  Bool, true, false, Option, none, some, ok, ◌≡◌, refl, ◌↔◌, ◌⊎◌, inl, inr, arith, Bool-cases,
  &&-eq-true,
}
use traceability.Core.Dcp.{
  Float64, numeric_type, numeric, Limits, is_none_or, is_bounded, accepts, DataCollectionPoint,
  pass, evaluate,
}

-- A limit that is not set, or one that the test holds for.
pub data Within {F : Type 0} (p : F → Bool) : Option F → Type 0 where
  unlimited : Within p none
  limited : {m : F} → p m ≡ true → Within p (some m)

Within-iff : {F : Type 0} (p : F → Bool) (o : Option F) → (is_none_or o p ≡ true) ↔ Within p o
Within-iff p none = (λ h. unlimited, λ w. refl)
Within-iff p (some m) = (λ h. limited h, from)
  where
    from : Within p (some m) → p m ≡ true
    from (limited h) = h

accepts_iff :
    {F : Type 0} (f : Float64 F) (l : Limits F) (v : F)
    → (accepts f l v ≡ true)
      ↔ ((f.is_nan v ≡ false) × Within (λ m. f.le m v) l.min × Within (λ m. f.le v m) l.max)
unfolding accepts
accepts_iff f l v = (to, from)
  where
    to :
        accepts f l v ≡ true
        → (f.is_nan v ≡ false) × Within (λ m. f.le m v) l.min × Within (λ m. f.le v m) l.max
    to h = elim (Bool-cases (f.is_nan v)) [
      | inl broken ↦ absurd (ground (arith, broken, h))
      | inr sound ↦
          let (low, high) =
            &&-eq-true (is_none_or l.min (λ m. f.le m v)) (is_none_or l.max (λ m. f.le v m))
              (rw sound at h) in
          (sound, (Within-iff _ l.min).0 low, (Within-iff _ l.max).0 high)
    ]

    from :
        (f.is_nan v ≡ false) × Within (λ m. f.le m v) l.min × Within (λ m. f.le v m) l.max
        → accepts f l v ≡ true
    from (sound, low, high) =
        rw
          (
            sound,
            (Within-iff (λ m. f.le m v) l.min).1 low,
            (Within-iff (λ m. f.le v m) l.max).1 high,
          )
          refl

unbounded_iff :
    {F : Type 0} (l : Limits F) → (is_bounded l ≡ false) ↔ ((l.min ≡ none) × (l.max ≡ none))
unfolding is_bounded
unbounded_iff l = (λ h. (ground (arith, h), ground (arith, h)), λ (a, b). ground (arith, a, b))

-- A number passes exactly if the point is numeric and either has neither limit set, or the number is
-- not NaN and keeps every limit that is set.
pub evaluate-pass_iff :
    {F : Type 0} (f : Float64 F) (d : DataCollectionPoint F) (n : F)
    → (evaluate f d (numeric n) ≡ ok pass) ↔ (
        (d.datatype ≡ numeric_type)
        × (((d.limits.min ≡ none) × (d.limits.max ≡ none))
            ⊎ ((f.is_nan n ≡ false)
                × Within (λ m. f.le m n) d.limits.min
                × Within (λ m. f.le n m) d.limits.max)))
unfolding evaluate
evaluate-pass_iff f d n = (to, from)
  where
    to :
        evaluate f d (numeric n) ≡ ok pass
        → (d.datatype ≡ numeric_type)
          × (((d.limits.min ≡ none) × (d.limits.max ≡ none))
              ⊎ ((f.is_nan n ≡ false)
                  × Within (λ m. f.le m n) d.limits.min
                  × Within (λ m. f.le n m) d.limits.max))
    to h =
        let typed : d.datatype ≡ numeric_type = ground (arith, h) in
        elim (Bool-cases (is_bounded d.limits)) [
          | inr unbounded ↦ (typed, inl ((unbounded_iff d.limits).0 unbounded))
          | inl bounded ↦
              (typed, inr ((accepts_iff f d.limits n).0 (ground (arith, h, typed, bounded))))
        ]

    from :
        (d.datatype ≡ numeric_type)
          × (((d.limits.min ≡ none) × (d.limits.max ≡ none))
              ⊎ ((f.is_nan n ≡ false)
                  × Within (λ m. f.le m n) d.limits.min
                  × Within (λ m. f.le n m) d.limits.max))
        → evaluate f d (numeric n) ≡ ok pass
    from (typed, inl none_set) = rw (typed, (unbounded_iff d.limits).1 none_set) refl
    from (typed, inr kept) =
        let good = (accepts_iff f d.limits n).1 kept in
        elim (Bool-cases (is_bounded d.limits)) [
          | inr unbounded ↦ rw (typed, unbounded) refl
          | inl bounded ↦ rw (typed, bounded, good) refl
        ]
