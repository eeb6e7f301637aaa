-- ===== src/Edge/Page/Inert.antt =====
-- No value of a page holds markup, where a quantity prints without any (apps/trace-edge/src/page.rs).
use traceability.Base.{
  String, List, [], ◌∷◌, Option, none, some, ◌≡◌, refl, sym, ◌∙◌, ap, All, map, length, decimal,
  decimal-digits,
}
use traceability.Edge.Page.{
  Text, HistoryEvent, HistoryMeasurement, HistoryComponent, UnitHistory, Piece, text_of,
  PagePrinters, or_else, dash, empty_note, event_row, event_rows, measurement_row, measurement_rows,
  item_of, component_row, component_rows,
}
use traceability.Edge.Page.Document.{
  document_head, style, to_components, to_measurements, to_events, footer, concat, parts, render,
  not_found,
}
use traceability.Edge.Page.Markup.{
  markup, escape-markup, digits-markup, shown_op-markup, verdict_class-markup, skeleton,
  concat-skeleton_same, IsPlain, All-append, text_of-markup,
}
use traceability.Edge.Page.Rows.{
  is_unit, row_end, event_table-skeleton, measurement_table-skeleton, component_table-skeleton,
}

empty_note-IsPlain :
    (pieces : List Piece) (what : String)
    → All IsPlain pieces
    → All IsPlain (empty_note pieces what)
empty_note-IsPlain [] what h = (tt, (tt, (tt, tt)))
empty_note-IsPlain (piece ∷ pieces) what h = h

concat-IsPlain : (parts : List (List Piece)) → All (All IsPlain) parts → All IsPlain (concat parts)
concat-IsPlain [] h = tt
concat-IsPlain (part ∷ parts) h = All-append part (concat parts) h.0 (concat-IsPlain parts h.1)

style-IsPlain : All IsPlain style
style-IsPlain = search

module _ {F Stamp : Type 0} (p : PagePrinters F Stamp) where
  document_head-IsPlain : (h : UnitHistory F Stamp) → All IsPlain (document_head p h)
  document_head-IsPlain h = search escape-markup

  to_components-IsPlain : (h : UnitHistory F Stamp) → All IsPlain (to_components p h)
  to_components-IsPlain h = search escape-markup

  to_measurements-IsPlain : (h : UnitHistory F Stamp) → All IsPlain (to_measurements p h)
  to_measurements-IsPlain h = search

  to_events-IsPlain : (h : UnitHistory F Stamp) → All IsPlain (to_events p h)
  to_events-IsPlain h = search

  footer-IsPlain : (h : UnitHistory F Stamp) → All IsPlain (footer p h)
  footer-IsPlain h = search

  event_rows-IsPlain : (events : List (HistoryEvent Stamp)) → All IsPlain (event_rows p events)
  unfolding event_rows
  event_rows-IsPlain [] = tt
  event_rows-IsPlain (e ∷ events) =
      All-append (event_row p e) (event_rows p events) (search (escape-markup, shown_op-markup))
        (event_rows-IsPlain events)

  measurement_rows-IsPlain :
      (measurements : List (HistoryMeasurement F Stamp))
      → All IsPlain (measurement_rows p measurements)
  unfolding measurement_rows
  measurement_rows-IsPlain [] = tt
  measurement_rows-IsPlain (m ∷ measurements) =
      All-append (measurement_row p m) (measurement_rows p measurements)
        (search (escape-markup, verdict_class-markup)) (measurement_rows-IsPlain measurements)

  module _ (quantity_plain : (quantity : F) → markup (p.show_qty quantity) ≡ []) where
    item_of-IsPlain :
        (c : HistoryComponent F Stamp) (child : Option Text) → All IsPlain (item_of p c child)
    item_of-IsPlain c none = (
      tt,
      (escape-markup (or_else c.lot_no dash), (tt, (quantity_plain (or_else c.qty p.default), tt))),
    )
    item_of-IsPlain c (some uid) = (tt, (escape-markup uid, (tt, (escape-markup uid, (tt, tt)))))

    component_row-IsPlain : (c : HistoryComponent F Stamp) → All IsPlain (component_row p c)
    component_row-IsPlain c = (
      tt,
      (
        digits-markup (decimal c.depth) (decimal-digits c.depth),
        (
          tt,
          All-append (item_of p c c.child_uid) (row_end p c) (item_of-IsPlain c c.child_uid) (
            tt,
            (
              digits-markup (decimal c.operation_seq) (decimal-digits c.operation_seq),
              (tt, (escape-markup (p.to_rfc3339 c.recorded_at), (tt, tt))),
            ),
          ),
        ),
      ),
    )

    component_rows-IsPlain :
        (components : List (HistoryComponent F Stamp)) → All IsPlain (component_rows p components)
    unfolding component_rows
    component_rows-IsPlain [] = tt
    component_rows-IsPlain (c ∷ components) =
        All-append (component_row p c) (component_rows p components) (component_row-IsPlain c)
          (component_rows-IsPlain components)

    render-IsPlain : (h : UnitHistory F Stamp) → All IsPlain (render p h)
    unfolding render
    render-IsPlain h = concat-IsPlain (parts p h) (
      document_head-IsPlain h,
      (
        style-IsPlain,
        (
          to_components-IsPlain h,
          (
            empty_note-IsPlain (component_rows p h.components) "components"
                (component_rows-IsPlain h.components),
            (
              to_measurements-IsPlain h,
              (
                empty_note-IsPlain (measurement_rows p h.measurements) "measurements"
                    (measurement_rows-IsPlain h.measurements),
                (
                  to_events-IsPlain h,
                  (
                    empty_note-IsPlain (event_rows p h.events) "events"
                        (event_rows-IsPlain h.events),
                    (footer-IsPlain h, tt),
                  ),
                ),
              ),
            ),
          ),
        ),
      ),
    )

  render-skeleton :
      (h k : UnitHistory F Stamp)
      → map is_unit h.components ≡ map is_unit k.components
      → length h.measurements ≡ length k.measurements
      → length h.events ≡ length k.events
      → skeleton (render p h) ≡ skeleton (render p k)
  unfolding render skeleton
  render-skeleton h k kinds readings events = concat-skeleton_same (parts p h) (parts p k) (
    refl,
    (
      refl,
      (
        refl,
        (
          component_table-skeleton p h.components k.components kinds,
          (
            refl,
            (
              measurement_table-skeleton p h.measurements k.measurements readings,
              (refl, (event_table-skeleton p h.events k.events events, (refl, tt))),
            ),
          ),
        ),
      ),
    ),
  )

  -- The characters of a page that open or close tags and attribute values do not depend on the texts that come
  -- from scanners and instruments: two histories with as many events, as many readings and components of the
  -- same kinds in order have pages with the same such characters, where a quantity prints without any.
  pub render-same_markup :
      (chars : String → Text) (quantity_plain : (quantity : F) → markup (p.show_qty quantity) ≡ [])
      (h k : UnitHistory F Stamp)
      → map is_unit h.components ≡ map is_unit k.components
      → length h.measurements ≡ length k.measurements
      → length h.events ≡ length k.events
      → markup (text_of chars (render p h)) ≡ markup (text_of chars (render p k))
  render-same_markup chars quantity_plain h k kinds readings events =
      text_of-markup chars (render p h) (render-IsPlain quantity_plain h)
      ∙ ap (λ pieces. markup (text_of chars pieces)) (render-skeleton h k kinds readings events)
      ∙ sym (text_of-markup chars (render p k) (render-IsPlain quantity_plain k))

-- Nor do those of the page for a code that belongs to no unit depend on the code.
not_found-same_markup :
    (chars : String → Text) (uid other : Text)
    → markup (text_of chars (not_found uid)) ≡ markup (text_of chars (not_found other))
unfolding not_found skeleton
not_found-same_markup chars uid other =
    text_of-markup chars (not_found uid) (search escape-markup)
    ∙ sym (text_of-markup chars (not_found other) (search escape-markup))
