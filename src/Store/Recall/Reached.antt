-- ===== src/Store/Recall/Reached.antt =====
-- Which units a recall finds (`units_affected_by_lot` of crates/trace-store/src/query.rs).
use mathlib.Core.Path.{subst}
use traceability.Base.{
  ℕ, zero, suc, ◌+◌, ◌≤◌, String, true, List, [], ◌∷◌, ◌++◌, some, ◌≡◌, refl, sym, ap, ◌↔◌, inl,
  inr, ◌⊎◌, arith, ◌==◌, ==_iff, ==_refl, str_eq_iff, filter, map, Memᴰ, Bool-cases, Option-cases,
  dec_lt, ◌-◌, mem-filter, mem_of_filter, mem-map,
}
use traceability.Core.Error.{RowId}
use traceability.Core.Route.{contains}
use traceability.Store.{UnitRow}
use traceability.Store.Recall.{
  GenealogyRow, is_lot, has_child, seed, parents, rolled_up, max_depth, units_affected_by_lot,
  IsAffected, consumed, went_into,
}

mem_of_map :
    {A B : Type 0} (f : A → B) {y : B} (xs : List A)
    → Memᴰ y (map f xs)
    → (x : A) × Memᴰ x xs × (f x ≡ y)
mem_of_map f [] m = elim m [ ]
mem_of_map f (x ∷ xs) (Memᴰ.head e) = (x, Memᴰ.head refl, sym e)
mem_of_map f (x ∷ xs) (Memᴰ.tail m) = let (x', m', e) = mem_of_map f xs m in (x', Memᴰ.tail m', e)

mem_of_append : {A : Type 0} {x : A} (xs ys : List A) → Memᴰ x (xs ++ ys) → Memᴰ x xs ⊎ Memᴰ x ys
mem_of_append [] ys m = inr m
mem_of_append (y ∷ xs) ys (Memᴰ.head e) = inl (Memᴰ.head e)
mem_of_append (y ∷ xs) ys (Memᴰ.tail m) = elim (mem_of_append xs ys m) [
  | inl here ↦ inl (Memᴰ.tail here)
  | inr there ↦ inr there
]

mem-append_either :
    {A : Type 0} {x : A} (xs ys : List A) → Memᴰ x xs ⊎ Memᴰ x ys → Memᴰ x (xs ++ ys)
mem-append_either [] ys (inl m) = elim m [ ]
mem-append_either [] ys (inr m) = m
mem-append_either (y ∷ xs) ys (inl (Memᴰ.head e)) = Memᴰ.head e
mem-append_either (y ∷ xs) ys (inl (Memᴰ.tail m)) = Memᴰ.tail (mem-append_either xs ys (inl m))
mem-append_either (y ∷ xs) ys (inr m) = Memᴰ.tail (mem-append_either xs ys (inr m))

contains_iff : (set : List ℕ) (k : ℕ) → (contains set k ≡ true) ↔ Memᴰ k set
contains_iff [] k = (λ h. absurd (cc h), λ m. elim m [ ])
contains_iff (x ∷ set) k =
    let (to, from) = contains_iff set k in
    (
      λ h. elim (Bool-cases (x == k)) [
        | inl same ↦ Memᴰ.head (sym ((==_iff x k).0 same))
        | inr other ↦ Memᴰ.tail (to (rw other at h))
      ],
      λ m. found from m,
    )
  where
    found : (Memᴰ k set → contains set k ≡ true) → Memᴰ k (x ∷ set) → contains (x ∷ set) k ≡ true
    found from (Memᴰ.head e) = rw e (rw (==_refl x) refl)
    found from (Memᴰ.tail m) = ground (arith, from m)

module _ (rows : List GenealogyRow) (lot_no : String) where
  at_start :
      (unit_id : RowId)
      → IsAffected rows lot_no zero unit_id
      → (row : GenealogyRow) × Memᴰ row rows
        × (row.lot_no ≡ some lot_no)
        × (row.parent_unit_id ≡ unit_id)
  at_start unit_id (consumed {row = row} m e) = (row, m, e, refl)

  one_step :
      (depth : ℕ) (unit_id : RowId)
      → IsAffected rows lot_no (suc depth) unit_id
      → (child : RowId) × (row : GenealogyRow) × IsAffected rows lot_no depth child
        × Memᴰ row rows
        × (row.child_unit_id ≡ some child)
        × (row.parent_unit_id ≡ unit_id)
  one_step depth unit_id (went_into {child = child} {row = row} below m e) =
      (child, row, below, m, e, refl)

  lot-is_lot : (row : GenealogyRow) → (is_lot lot_no row ≡ true) ↔ (row.lot_no ≡ some lot_no)
  lot-is_lot row = elim (Option-cases row.lot_no) [
    | inl missing ↦ rw missing (λ h. absurd (cc h), λ h. absurd (cc h))
    | inr (found, e) ↦
        rw e (λ h. ap some ((str_eq_iff found lot_no).0 h), λ h. (str_eq_iff found lot_no).1 (cc h))
  ]

  child-has_child :
      (units : List RowId) (row : GenealogyRow)
      → (has_child units row ≡ true)
        ↔ ((child : RowId) × (row.child_unit_id ≡ some child) × Memᴰ child units)
  child-has_child units row = elim (Option-cases row.child_unit_id) [
    | inl missing ↦ rw missing (λ h. absurd (cc h), λ (child, at, m). absurd (cc at))
    | inr (found, e) ↦ rw e (
      λ h. (found, refl, (contains_iff units found).0 h),
      λ (child, at, m).
          let same : child ≡ found = cc at in (contains_iff units found).1 (rw same at m),
    )
  ]

  seed_iff :
      (unit_id : RowId) → Memᴰ unit_id (seed rows lot_no) ↔ IsAffected rows lot_no zero unit_id
  unfolding seed
  seed_iff unit_id = (
    λ m.
        let (row, m', e) =
          mem_of_map (λ (r : GenealogyRow). r.parent_unit_id) (filter (is_lot lot_no) rows) m in
        let (m'', hit) = mem_of_filter (is_lot lot_no) rows m' in
        rw (sym e) (consumed m'' ((lot-is_lot row).0 hit)),
    λ h.
        let (row, m, e, same) = at_start unit_id h in
        rw (sym same) (
          mem-map (λ (r : GenealogyRow). r.parent_unit_id) (filter (is_lot lot_no) rows)
            (mem-filter (is_lot lot_no) rows m ((lot-is_lot row).1 e))),
  )

  parents_iff :
      (depth : ℕ) (units : List RowId)
      → ((u : RowId) → Memᴰ u units ↔ IsAffected rows lot_no depth u)
      → (unit_id : RowId)
      → Memᴰ unit_id (parents rows units) ↔ IsAffected rows lot_no (suc depth) unit_id
  unfolding parents
  parents_iff depth units level unit_id = (
    λ m.
        let (row, m', e) =
          mem_of_map (λ (r : GenealogyRow). r.parent_unit_id) (filter (has_child units) rows) m in
        let (m'', hit) = mem_of_filter (has_child units) rows m' in
        let (child, at, below) = (child-has_child units row).0 hit in
        rw (sym e) (went_into ((level child).0 below) m'' at),
    λ h.
        let (child, row, below, m, at, same) = one_step depth unit_id h in
        rw (sym same) (
          mem-map (λ (r : GenealogyRow). r.parent_unit_id) (filter (has_child units) rows)
            (mem-filter (has_child units) rows m
              ((child-has_child units row).1 (child, at, (level child).1 below)))),
  )

  at_depth :
      {m n : ℕ} {unit_id : RowId}
      → m ≡ n
      → IsAffected rows lot_no m unit_id
      → IsAffected rows lot_no n unit_id
  at_depth {unit_id = unit_id} e h = subst (λ k. IsAffected rows lot_no k unit_id) e h

  rolled_up_iff :
      (steps depth : ℕ) (units : List RowId)
      → ((u : RowId) → Memᴰ u units ↔ IsAffected rows lot_no depth u)
      → (unit_id : RowId)
      → Memᴰ unit_id (rolled_up rows steps units)
        ↔ ((more : ℕ) × (more ≤ steps) × IsAffected rows lot_no (more + depth) unit_id)
  unfolding rolled_up
  rolled_up_iff zero depth units level unit_id = (
    λ m. (0, omega arith, at_depth (omega arith) ((level unit_id).0 m)),
    λ (more, le, h). (level unit_id).1 (at_depth (omega (arith, le)) h),
  )
  rolled_up_iff (suc steps) depth units level unit_id =
      let (to, from) =
        rolled_up_iff steps (suc depth) (parents rows units) (parents_iff depth units level)
          unit_id in
      (
        λ m. elim (mem_of_append units (rolled_up rows steps (parents rows units)) m) [
          | inl here ↦ (0, omega arith, at_depth (omega arith) ((level unit_id).0 here))
          | inr there ↦
              let (more, le, h) = to there in
              (more + 1, omega (arith, le), at_depth (omega arith) h)
        ],
        λ (more, le, h).
            mem-append_either units (rolled_up rows steps (parents rows units))
              (elim (dec_lt 0 more) [
                | yes above ↦
                    inr (from (more - 1, omega (arith, le), at_depth (omega (arith, above)) h))
                | no here ↦ inl ((level unit_id).1 (at_depth (omega (arith, here)) h))
              ]),
      )

  -- The recall of a lot lists a unit exactly if it is stored and consumed the lot, or has in it, by at
  -- most 32 steps of the genealogy, a unit that did.
  pub units_affected_by_lot_iff :
      {Stamp : Type 0} (units : List (UnitRow Stamp)) (u : UnitRow Stamp)
      → Memᴰ u (units_affected_by_lot rows units lot_no)
        ↔ (Memᴰ u units × ((depth : ℕ) × (depth ≤ 32) × IsAffected rows lot_no depth u.id))
  unfolding units_affected_by_lot
  units_affected_by_lot_iff units u =
      let (to, from) = rolled_up_iff max_depth 0 (seed rows lot_no) seed_iff u.id in
      let (held, hold) = contains_iff (rolled_up rows max_depth (seed rows lot_no)) u.id in
      (
        λ m.
            let (m', hit) =
              mem_of_filter
                (λ (x : UnitRow _). contains (rolled_up rows max_depth (seed rows lot_no)) x.id)
                units m in
            let (depth, le, h) = to (held hit) in (m', (depth, le, at_depth (omega arith) h)),
        λ (m, (depth, le, h)).
            mem-filter
              (λ (x : UnitRow _). contains (rolled_up rows max_depth (seed rows lot_no)) x.id) units
              m (hold (from (depth, le, at_depth (omega arith) h))),
      )
