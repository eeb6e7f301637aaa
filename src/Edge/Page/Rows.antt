-- ===== src/Edge/Page/Rows.antt =====
-- The template of a row does not depend on its values (apps/trace-edge/src/page.rs).
use traceability.Base.{
  Bool, true, false, List, [], ◌∷◌, ◌++◌, Option, none, some, ◌≡◌, refl, ap, arith, map, length,
  decimal,
}
use traceability.Edge.Page.{
  Text, escape, HistoryEvent, HistoryMeasurement, HistoryComponent, Piece, literal, shown,
  PagePrinters, empty_note, event_row, event_rows, measurement_row, measurement_rows, item_of,
  component_row, component_rows,
}
use traceability.Edge.Page.Markup.{skeleton, skeleton-append, append-skeleton_same}

-- Rows as many, and of the same kinds, have the same template.
abbrev pub is_some : {A : Type 0} → Option A → Bool
is_some none = false
is_some (some x) = true

abbrev pub is_unit : {F Stamp : Type 0} → HistoryComponent F Stamp → Bool
is_unit c = is_some c.child_uid

abbrev first_of : List Bool → Bool
first_of [] = false
first_of (k ∷ kinds) = k

abbrev rest_of : List Bool → List Bool
rest_of [] = []
rest_of (k ∷ kinds) = kinds

module _ {F Stamp : Type 0} (p : PagePrinters F Stamp) where
  event_rows-skeleton :
      (xs ys : List (HistoryEvent Stamp))
      → length xs ≡ length ys
      → skeleton (event_rows p xs) ≡ skeleton (event_rows p ys)
  unfolding skeleton event_rows
  event_rows-skeleton [] [] same = refl
  event_rows-skeleton [] (y ∷ ys) same = absurd (omega (arith, same))
  event_rows-skeleton (x ∷ xs) [] same = absurd (omega (arith, same))
  event_rows-skeleton (x ∷ xs) (y ∷ ys) same =
      ap (λ rest. skeleton (event_row p x) ++ rest)
        (event_rows-skeleton xs ys (omega (arith, same)))

  pub event_table-skeleton :
      (xs ys : List (HistoryEvent Stamp))
      → length xs ≡ length ys
      → skeleton (empty_note (event_rows p xs) "events")
        ≡ skeleton (empty_note (event_rows p ys) "events")
  unfolding skeleton event_rows
  event_table-skeleton [] [] same = refl
  event_table-skeleton [] (y ∷ ys) same = absurd (omega (arith, same))
  event_table-skeleton (x ∷ xs) [] same = absurd (omega (arith, same))
  event_table-skeleton (x ∷ xs) (y ∷ ys) same = event_rows-skeleton (x ∷ xs) (y ∷ ys) same

  measurement_rows-skeleton :
      (xs ys : List (HistoryMeasurement F Stamp))
      → length xs ≡ length ys
      → skeleton (measurement_rows p xs) ≡ skeleton (measurement_rows p ys)
  unfolding skeleton measurement_rows
  measurement_rows-skeleton [] [] same = refl
  measurement_rows-skeleton [] (y ∷ ys) same = absurd (omega (arith, same))
  measurement_rows-skeleton (x ∷ xs) [] same = absurd (omega (arith, same))
  measurement_rows-skeleton (x ∷ xs) (y ∷ ys) same =
      ap (λ rest. skeleton (measurement_row p x) ++ rest)
        (measurement_rows-skeleton xs ys (omega (arith, same)))

  pub measurement_table-skeleton :
      (xs ys : List (HistoryMeasurement F Stamp))
      → length xs ≡ length ys
      → skeleton (empty_note (measurement_rows p xs) "measurements")
        ≡ skeleton (empty_note (measurement_rows p ys) "measurements")
  unfolding skeleton measurement_rows
  measurement_table-skeleton [] [] same = refl
  measurement_table-skeleton [] (y ∷ ys) same = absurd (omega (arith, same))
  measurement_table-skeleton (x ∷ xs) [] same = absurd (omega (arith, same))
  measurement_table-skeleton (x ∷ xs) (y ∷ ys) same =
      measurement_rows-skeleton (x ∷ xs) (y ∷ ys) same

  item_of-skeleton :
      (c d : HistoryComponent F Stamp) (a b : Option Text)
      → is_some a ≡ is_some b
      → skeleton (item_of p c a) ≡ skeleton (item_of p d b)
  unfolding skeleton
  item_of-skeleton c d none none same = refl
  item_of-skeleton c d none (some uid) same = absurd (cc same)
  item_of-skeleton c d (some uid) none same = absurd (cc same)
  item_of-skeleton c d (some uid) (some vid) same = refl

  abbrev pub row_end : HistoryComponent F Stamp → List Piece
  row_end c =
      literal "</td><td>"
      ∷ shown (decimal c.operation_seq)
      ∷ literal "</td><td>"
      ∷ shown (escape (p.to_rfc3339 c.recorded_at))
      ∷ literal "</td></tr>"
      ∷ []

  component_row-skeleton :
      (c d : HistoryComponent F Stamp)
      → is_unit c ≡ is_unit d
      → skeleton (component_row p c) ≡ skeleton (component_row p d)
  unfolding skeleton
  component_row-skeleton c d same =
      rw
        (
          skeleton-append (item_of p c c.child_uid) (row_end c),
          skeleton-append (item_of p d d.child_uid) (row_end d),
          item_of-skeleton c d c.child_uid d.child_uid same,
        )
        refl

  component_rows-skeleton :
      (cs ds : List (HistoryComponent F Stamp))
      → map is_unit cs ≡ map is_unit ds
      → skeleton (component_rows p cs) ≡ skeleton (component_rows p ds)
  unfolding skeleton component_rows
  component_rows-skeleton [] [] same = refl
  component_rows-skeleton [] (d ∷ ds) same = absurd (cc same)
  component_rows-skeleton (c ∷ cs) [] same = absurd (cc same)
  component_rows-skeleton (c ∷ cs) (d ∷ ds) same =
      append-skeleton_same (component_row p c) (component_row p d) (component_rows p cs)
        (component_rows p ds) (component_row-skeleton c d (ap first_of same))
        (component_rows-skeleton cs ds (ap rest_of same))

  pub component_table-skeleton :
      (cs ds : List (HistoryComponent F Stamp))
      → map is_unit cs ≡ map is_unit ds
      → skeleton (empty_note (component_rows p cs) "components")
        ≡ skeleton (empty_note (component_rows p ds) "components")
  unfolding skeleton component_rows
  component_table-skeleton [] [] same = refl
  component_table-skeleton [] (d ∷ ds) same = absurd (cc same)
  component_table-skeleton (c ∷ cs) [] same = absurd (cc same)
  component_table-skeleton (c ∷ cs) (d ∷ ds) same = component_rows-skeleton (c ∷ cs) (d ∷ ds) same
