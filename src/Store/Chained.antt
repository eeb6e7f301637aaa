-- ===== src/Store/Chained.antt =====
-- However events and measurements of whatever units are appended (crates/trace-store/src/repo.rs), the
-- rows of a unit are one chain over both tables.
use mathlib.Core.Path.{subst}
use traceability.Base.{
  suc, ◌+◌, ◌<◌, ◌^◌, Bool, true, false, List, [], ◌∷◌, ◌++◌, Option, none, some, ok, err, ◌≡◌,
  refl, sym, ap, ◌∙◌, arith, inl, inr, ◌==◌, ==_iff, ==_refl, if◌then◌else◌, any, length,
  length-append, Bool-cases,
}
use traceability.Core.Error.{RowId}
use traceability.Core.Unit.Payload.{Printers, canonical_payload}
use traceability.Core.Unit.Measured.{ValuePrinters, measurement_payload}
use traceability.Core.Chain
use traceability.Core.Chain.{Bytes, ChainLink, genesis, append, grow}
use traceability.Core.Chain.Tampering.{grow-verify}
use traceability.Store.{
  UnitRow, NewEvent, NewMeasurement, Tables, event_of, measurement_of, order_links, last_or,
  event_links, measurement_links, unit_links, chain_tail, lock_unit, append_event,
  append_measurement, insert_event, insert_measurement, not_found, verify_unit_chain,
}
use traceability.Store.Ordering.{
  Below, order_links-last, next_seq, append-seq, grow-append, next_seq-grow, grow-Below,
}
use traceability.Store.Checking.{IsLinked, verify_unit_chain_iff}

pub data Call (F Stamp : Type 0) : Type 0 where
  event : (new : NewEvent Stamp) → Call F Stamp
  measurement : (new : NewMeasurement F Stamp) → Call F Stamp

abbrev prev_of : Option ChainLink → Bytes
prev_of none = genesis
prev_of (some tail) = tail.row_hash

abbrev pub has_unit : {Stamp : Type 0} → List (UnitRow Stamp) → RowId → Bool
has_unit units unit_id = any (λ u. u.id == unit_id) units

module _ {F Stamp : Type 0} where
  abbrev pub unit_of : Call F Stamp → RowId
  unit_of (event new) = new.unit_id
  unit_of (measurement new) = new.unit_id

  -- The tables of a tenant with units and no rows.
  abbrev pub fresh : List (UnitRow Stamp) → Tables F Stamp
  fresh units = record { units = units; events = []; measurements = [] }

module _ (sha256_hex : Bytes → Bytes) {F Stamp : Type 0} (p : Printers Stamp)
    (v : ValuePrinters F) where
  abbrev pub payload_of : Call F Stamp → Bytes
  payload_of (event new) = canonical_payload p (event_of new)
  payload_of (measurement new) = measurement_payload p v (measurement_of new)

  abbrev pub apply : Tables F Stamp → Call F Stamp → Tables F Stamp
  apply t (event new) = (append_event sha256_hex p v t new).0
  apply t (measurement new) = (append_measurement sha256_hex p v t new).0

  -- The tables after the calls; the last call stands first.
  unfoldable pub after : Tables F Stamp → List (Call F Stamp) → Tables F Stamp
  after t [] = t
  after t (call ∷ calls) = apply (after t calls) call

  -- What the calls for a unit are to record, in their order.
  unfoldable pub recorded : RowId → List (Call F Stamp) → List Bytes
  recorded unit_id [] = []
  recorded unit_id (call ∷ calls) =
      if unit_of call == unit_id
      then recorded unit_id calls ++ payload_of call ∷ []
      else recorded unit_id calls

  abbrev link_of : Tables F Stamp → Call F Stamp → ChainLink
  link_of t call = append sha256_hex (chain_tail t (unit_of call)) (payload_of call)

  abbrev stored : Tables F Stamp → Call F Stamp → Tables F Stamp
  stored t (event new) = record t {
    events = record { new = new; link = link_of t (event new) } ∷ t.events;
  }
  stored t (measurement new) = record t {
    measurements = record { new = new; link = link_of t (measurement new) } ∷ t.measurements;
  }

  apply-known :
      (t : Tables F Stamp) (call : Call F Stamp)
      → has_unit t.units (unit_of call) ≡ true
      → apply t call ≡ stored t call
  unfolding append_event append_measurement lock_unit
  apply-known t (event new) known =
      ap
        (λ b.
          (insert_event sha256_hex p v t new
            (if b then ok tt else err (not_found "unit" new.unit_id))).0)
        known
  apply-known t (measurement new) known =
      ap
        (λ b.
          (insert_measurement sha256_hex p v t new
            (if b then ok tt else err (not_found "unit" new.unit_id))).0)
        known

  apply-unknown :
      (t : Tables F Stamp) (call : Call F Stamp)
      → has_unit t.units (unit_of call) ≡ false
      → apply t call ≡ t
  unfolding append_event append_measurement lock_unit
  apply-unknown t (event new) unknown =
      ap
        (λ b.
          (insert_event sha256_hex p v t new
            (if b then ok tt else err (not_found "unit" new.unit_id))).0)
        unknown
  apply-unknown t (measurement new) unknown =
      ap
        (λ b.
          (insert_measurement sha256_hex p v t new
            (if b then ok tt else err (not_found "unit" new.unit_id))).0)
        unknown

  stored-units : (t : Tables F Stamp) (call : Call F Stamp) → (stored t call).units ≡ t.units
  stored-units t (event new) = refl
  stored-units t (measurement new) = refl

  after-units : (t : Tables F Stamp) (calls : List (Call F Stamp)) → (after t calls).units ≡ t.units
  unfolding after
  after-units t [] = refl
  after-units t (call ∷ calls) = elim (Bool-cases (has_unit (after t calls).units (unit_of call))) [
    | inl known ↦
        rw (apply-known (after t calls) call known, stored-units (after t calls) call)
          (after-units t calls)
    | inr unknown ↦ rw (apply-unknown (after t calls) call unknown) (after-units t calls)
  ]

  stored-other :
      (t : Tables F Stamp) (call : Call F Stamp) (unit_id : RowId)
      → (unit_of call == unit_id) ≡ false
      → unit_links (stored t call) unit_id ≡ unit_links t unit_id
  unfolding unit_links
  stored-other t (event new) unit_id other = rw other refl
  stored-other t (measurement new) unit_id other = rw other refl

  -- A call for another unit leaves the rows of a unit as they are.
  unit_links-other :
      (t : Tables F Stamp) (call : Call F Stamp) (unit_id : RowId)
      → (unit_of call == unit_id) ≡ false
      → unit_links (apply t call) unit_id ≡ unit_links t unit_id
  unit_links-other t call unit_id other = elim (Bool-cases (has_unit t.units (unit_of call))) [
    | inl known ↦ rw (apply-known t call known) (stored-other t call unit_id other)
    | inr unknown ↦ rw (apply-unknown t call unknown) refl
  ]

  -- A call for the unit puts its link behind them, where that link is behind them by its position.
  stored-own :
      (t : Tables F Stamp) (call : Call F Stamp)
      → Below (link_of t call).seq (unit_links t (unit_of call))
      → unit_links (stored t call) (unit_of call)
        ≡ unit_links t (unit_of call) ++ link_of t call ∷ []
  unfolding unit_links
  stored-own t (event new) below = rw (==_refl new.unit_id) (
      order_links-last (link_of t (event new)) []
        (event_links new.unit_id t.events ++ measurement_links new.unit_id t.measurements) below)
  stored-own t (measurement new) below = rw (==_refl new.unit_id) (
      order_links-last (link_of t (measurement new)) (event_links new.unit_id t.events)
        (measurement_links new.unit_id t.measurements) below)

  -- The link of the next call continues the chain that the unit has.
  grows :
      (t : Tables F Stamp) (call : Call F Stamp) (payloads : List Bytes)
      → has_unit t.units (unit_of call) ≡ true
      → length payloads < 2 ^ 64
      → unit_links t (unit_of call) ≡ grow sha256_hex none payloads
      → unit_links (apply t call) (unit_of call)
        ≡ grow sha256_hex none (payloads ++ payload_of call ∷ [])
  grows t call payloads known bound chain =
      let tail : chain_tail t (unit_of call) ≡ last_or none (grow sha256_hex none payloads) =
        unfold chain_tail in ap (last_or none) chain in
      let last = last_or none (grow sha256_hex none payloads) in
      let next : next_seq last ≡ length payloads =
        omega (arith, next_seq-grow sha256_hex none payloads (omega (arith, bound))) in
      let at : (link_of t call).seq ≡ length payloads =
        rw tail
          (append-seq sha256_hex last (payload_of call) (omega (arith, next, bound)) ∙ next) in
      let from_start : next_seq none + length payloads ≡ (link_of t call).seq = omega (arith, at) in
      let below : Below (link_of t call).seq (unit_links t (unit_of call)) =
        subst (λ links. Below (link_of t call).seq links) (sym chain)
          (subst (λ n. Below n (grow sha256_hex none payloads)) from_start
            (grow-Below sha256_hex none payloads (omega (arith, bound)))) in
      rw (apply-known t call known, stored-own t call below, chain, tail)
        (sym (grow-append sha256_hex none payloads (payload_of call)))

  -- The rows of a unit are the chain of what was to be recorded for it.
  unit_links-after :
      (units : List (UnitRow Stamp)) (calls : List (Call F Stamp)) (unit_id : RowId)
      → has_unit units unit_id ≡ true
      → length (recorded unit_id calls) < 2 ^ 64
      → unit_links (after (fresh units) calls) unit_id
        ≡ grow sha256_hex none (recorded unit_id calls)
  unfolding after recorded
  unit_links-after units [] unit_id known bound = unfold unit_links order_links grow in refl
  unit_links-after units (call ∷ calls) unit_id known bound =
      elim (Bool-cases (unit_of call == unit_id)) [
        | inr other ↦
            let before = unit_links-after units calls unit_id known (rw other at bound) in
            rw other (unit_links-other (after (fresh units) calls) call unit_id other ∙ before)
        | inl own ↦
            let bound' : length (recorded unit_id calls ++ payload_of call ∷ []) < 2 ^ 64 =
              rw own at bound in
            let shorter : length (recorded unit_id calls) < 2 ^ 64 =
              omega
                (arith, bound', length-append (recorded unit_id calls) (payload_of call ∷ [])) in
            let before = unit_links-after units calls unit_id known shorter in
            let same : unit_of call ≡ unit_id = (==_iff (unit_of call) unit_id).0 own in
            let t = after (fresh units) calls in
            let known' : has_unit t.units (unit_of call) ≡ true =
              rw (after-units (fresh units) calls, same) known in
            rw (own, sym same)
              (grows t call (recorded unit_id calls) known' shorter (rw same before))
      ]

  grow-IsLinked :
      (tail : Option ChainLink) (payloads : List Bytes)
      → IsLinked (prev_of tail) (grow sha256_hex tail payloads)
  unfolding grow append
  grow-IsLinked none [] = tt
  grow-IsLinked (some tail) [] = tt
  grow-IsLinked none (q ∷ payloads) =
      (refl, grow-IsLinked (some (append sha256_hex none q)) payloads)
  grow-IsLinked (some tail) (q ∷ payloads) =
      (refl, grow-IsLinked (some (append sha256_hex (some tail) q)) payloads)

  length-grow_chain :
      (tail : Option ChainLink) (payloads : List Bytes)
      → length (grow sha256_hex tail payloads) ≡ length payloads
  unfolding grow
  length-grow_chain tail [] = refl
  length-grow_chain tail (q ∷ payloads) =
      ap suc (length-grow_chain (some (append sha256_hex tail q)) payloads)

  -- However events and measurements are appended to tables without rows, fewer than 2 ^ 63 for a unit,
  -- the rows of each unit, in order and over both tables, verify against what was to be recorded for
  -- it, and the check of the unit accepts and counts them.
  pub appended-verify :
      (units : List (UnitRow Stamp)) (calls : List (Call F Stamp)) (unit_id : RowId)
      → has_unit units unit_id ≡ true
      → length (recorded unit_id calls) < 2 ^ 63
      → (Chain.verify sha256_hex
            (unit_links (after (fresh units) calls) unit_id)
            (recorded unit_id calls)
          ≡ ok tt)
        × (verify_unit_chain (after (fresh units) calls) unit_id
            ≡ ok (length (recorded unit_id calls)))
  appended-verify units calls unit_id known bound =
      let chain = unit_links-after units calls unit_id known (omega (arith, bound)) in
      (
        rw chain (grow-verify sha256_hex (recorded unit_id calls)),
        (verify_unit_chain_iff (after (fresh units) calls) unit_id
              (length (recorded unit_id calls))).1
            (rw chain (
              grow-IsLinked none (recorded unit_id calls),
              length-grow_chain none (recorded unit_id calls),
            )),
      )
