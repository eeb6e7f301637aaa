-- ===== src/Core/Unit/Payload/Injective.antt =====
-- Which events have one canonical text (crates/trace-core/src/unit.rs).
use traceability.Base.{
  decimal, decimal-injective, decimal-digits, is_digit, ℕ, true, List, [], ◌∷◌, ◌++◌, Option, none,
  some, ◌≡◌, ◌≢◌, ◌↔◌, refl, sym, ap, ◌∙◌, if◌then◌else◌, all, lacks, separator_split, arith,
  bytes_eq,
}
use traceability.Core.Chain.{Bytes}
use traceability.Core.Unit.Payload.{
  EventKind, event_born, scanned, operation_started, operation_completed, gate_failed, event_marked,
  mark_verified, component_consumed, held, event_quarantined, rework_started, event_scrapped,
  event_completed, event_shipped, correction, kind_text, UnitEvent, Printers, or_dash, bar, field,
  from_detail, from_recorded, from_operator, from_station, from_op, from_kind, canonical_payload,
}

pub digits-lack : (t : Bytes) → all is_digit t ≡ true → (lacks bar t ≡ true) × (t ≢ b'-' ∷ [])
digits-lack [] h = (refl, λ e. cc)
digits-lack (c ∷ t) h =
    (ground (arith, h, (digits-lack t (ground (arith, h))).0), λ e. ground (arith, h, e))

-- The kind that a text names.
kind_of : Bytes → List EventKind → EventKind
kind_of t [] = held
kind_of t (k ∷ rest) = if bytes_eq (kind_text k) t then k else kind_of t rest

abbrev kinds : List EventKind
kinds =
    event_born ∷ scanned ∷ operation_started ∷ operation_completed ∷ gate_failed ∷ event_marked
    ∷ mark_verified ∷ component_consumed ∷ held ∷ event_quarantined ∷ rework_started
    ∷ event_scrapped ∷ event_completed ∷ event_shipped ∷ correction ∷ []

kind_of-text : (k : EventKind) → kind_of (kind_text k) kinds ≡ k
unfolding kind_of kind_text bytes_eq
kind_of-text event_born = refl
kind_of-text scanned = refl
kind_of-text operation_started = refl
kind_of-text operation_completed = refl
kind_of-text gate_failed = refl
kind_of-text event_marked = refl
kind_of-text mark_verified = refl
kind_of-text component_consumed = refl
kind_of-text held = refl
kind_of-text event_quarantined = refl
kind_of-text rework_started = refl
kind_of-text event_scrapped = refl
kind_of-text event_completed = refl
kind_of-text event_shipped = refl
kind_of-text correction = refl

kind_text-injective : (k l : EventKind) → kind_text k ≡ kind_text l → k ≡ l
kind_text-injective k l h = sym (kind_of-text k) ∙ ap (λ t. kind_of t kinds) h ∙ kind_of-text l

kind_text-lacks : (k : EventKind) → lacks bar (kind_text k) ≡ true
unfolding kind_text
kind_text-lacks event_born = refl
kind_text-lacks scanned = refl
kind_text-lacks operation_started = refl
kind_text-lacks operation_completed = refl
kind_text-lacks gate_failed = refl
kind_text-lacks event_marked = refl
kind_text-lacks mark_verified = refl
kind_text-lacks component_consumed = refl
kind_text-lacks held = refl
kind_text-lacks event_quarantined = refl
kind_text-lacks rework_started = refl
kind_text-lacks event_scrapped = refl
kind_text-lacks event_completed = refl
kind_text-lacks event_shipped = refl
kind_text-lacks correction = refl

-- Of how ids and instants are printed: an id is told by its text, which is no dash, and neither text
-- has a bar.
pub record IsPrinting {Stamp : Type 0} (p : Printers Stamp) : Type 0 where
  pub id_injective : (m n : ℕ) → p.show_id m ≡ p.show_id n → m ≡ n
  pub id_lacks : (n : ℕ) → lacks bar (p.show_id n) ≡ true
  pub id_no_dash : (n : ℕ) → p.show_id n ≢ b'-' ∷ []
  pub stamp_lacks : (s : Stamp) → lacks bar (p.to_rfc3339 s) ≡ true

append_cancel : (name x y : Bytes) → name ++ x ≡ name ++ y → x ≡ y
append_cancel [] x y h = h
append_cancel (c ∷ name) x y h = append_cancel name x y (tail_eq h)
  where
    tail_eq : {a b : Bytes} → c ∷ a ≡ c ∷ b → a ≡ b
    tail_eq e = cc

field_split :
    (name s t x y : Bytes)
    → lacks bar s ≡ true
    → lacks bar t ≡ true
    → field name s x ≡ field name t y
    → (s ≡ t) × (x ≡ y)
field_split name s t x y hs ht h =
    separator_split bar s t x y hs ht (append_cancel name (s ++ bar ∷ x) (t ++ bar ∷ y) h)

or_dash-injective :
    {A : Type 0} (show : A → Bytes)
    → ((x y : A) → show x ≡ show y → x ≡ y)
    → ((x : A) → show x ≢ b'-' ∷ [])
    → (a b : Option A) → or_dash show a ≡ or_dash show b
    → a ≡ b
or_dash-injective show inj no_dash none none h = refl
or_dash-injective show inj no_dash none (some y) h = absurd (no_dash y (sym h))
or_dash-injective show inj no_dash (some x) none h = absurd (no_dash x h)
or_dash-injective show inj no_dash (some x) (some y) h = ap some (inj x y h)

or_dash-lacks :
    {A : Type 0} (show : A → Bytes)
    → ((x : A) → lacks bar (show x) ≡ true)
    → (a : Option A) → lacks bar (or_dash show a) ≡ true
or_dash-lacks show h none = refl
or_dash-lacks show h (some x) = h x

-- Two events have one canonical text exactly if they agree in unit, kind, operation, station and
-- operator, in the text of the time of recording, and in the detail, where none and a dash are one.
pub canonical_payload_iff :
    {Stamp : Type 0} (p : Printers Stamp) (printing : IsPrinting p) (a b : UnitEvent Stamp)
    → (canonical_payload p a ≡ canonical_payload p b) ↔ (
        (a.unit_id ≡ b.unit_id)
        × (a.kind ≡ b.kind)
        × (a.operation_seq ≡ b.operation_seq)
        × (a.station_id ≡ b.station_id)
        × (a.operator_id ≡ b.operator_id)
        × (p.to_rfc3339 a.recorded_at ≡ p.to_rfc3339 b.recorded_at)
        × (or_dash (λ shown. shown) a.detail ≡ or_dash (λ shown. shown) b.detail))
unfolding canonical_payload
canonical_payload_iff p printing a b = (to, λ (u, k, o, s, w, r, d). rw (u, k, o, s, w, r, d) refl)
  where
    to :
        canonical_payload p a ≡ canonical_payload p b
        → (a.unit_id ≡ b.unit_id)
          × (a.kind ≡ b.kind)
          × (a.operation_seq ≡ b.operation_seq)
          × (a.station_id ≡ b.station_id)
          × (a.operator_id ≡ b.operator_id)
          × (p.to_rfc3339 a.recorded_at ≡ p.to_rfc3339 b.recorded_at)
          × (or_dash (λ shown. shown) a.detail ≡ or_dash (λ shown. shown) b.detail)
    to h =
        let ids = or_dash-lacks p.show_id printing.id_lacks in
        let seqs = or_dash-lacks decimal (λ n. (digits-lack (decimal n) (decimal-digits n)).0) in
        let (u, h1) =
          field_split (b'u' ∷ b'n' ∷ b'i' ∷ b't' ∷ b'=' ∷ []) (p.show_id a.unit_id)
            (p.show_id b.unit_id) (from_kind p a) (from_kind p b) (printing.id_lacks a.unit_id)
            (printing.id_lacks b.unit_id) h in
        let (k, h2) =
          field_split (b'k' ∷ b'i' ∷ b'n' ∷ b'd' ∷ b'=' ∷ []) (kind_text a.kind) (kind_text b.kind)
            (from_op p a) (from_op p b) (kind_text-lacks a.kind) (kind_text-lacks b.kind) h1 in
        let (o, h3) =
          field_split (b'o' ∷ b'p' ∷ b'=' ∷ []) (or_dash decimal a.operation_seq)
            (or_dash decimal b.operation_seq) (from_station p a) (from_station p b)
            (seqs a.operation_seq) (seqs b.operation_seq) h2 in
        let (s, h4) =
          field_split (b's' ∷ b't' ∷ b'a' ∷ b't' ∷ b'i' ∷ b'o' ∷ b'n' ∷ b'=' ∷ [])
            (or_dash p.show_id a.station_id) (or_dash p.show_id b.station_id) (from_operator p a)
            (from_operator p b) (ids a.station_id) (ids b.station_id) h3 in
        let (w, h5) =
          field_split (b'o' ∷ b'p' ∷ b'e' ∷ b'r' ∷ b'a' ∷ b't' ∷ b'o' ∷ b'r' ∷ b'=' ∷ [])
            (or_dash p.show_id a.operator_id) (or_dash p.show_id b.operator_id) (from_recorded p a)
            (from_recorded p b) (ids a.operator_id) (ids b.operator_id) h4 in
        let (r, h6) =
          field_split (b'r' ∷ b'e' ∷ b'c' ∷ b'o' ∷ b'r' ∷ b'd' ∷ b'e' ∷ b'd' ∷ b'=' ∷ [])
            (p.to_rfc3339 a.recorded_at) (p.to_rfc3339 b.recorded_at) (from_detail p a)
            (from_detail p b) (printing.stamp_lacks a.recorded_at)
            (printing.stamp_lacks b.recorded_at) h5 in
        (
          printing.id_injective a.unit_id b.unit_id u,
          kind_text-injective a.kind b.kind k,
          or_dash-injective decimal decimal-injective
              (λ n. (digits-lack (decimal n) (decimal-digits n)).1) a.operation_seq b.operation_seq
              o,
          or_dash-injective p.show_id printing.id_injective printing.id_no_dash a.station_id
              b.station_id s,
          or_dash-injective p.show_id printing.id_injective printing.id_no_dash a.operator_id
              b.operator_id w,
          r,
          append_cancel (b'd' ∷ b'e' ∷ b't' ∷ b'a' ∷ b'i' ∷ b'l' ∷ b'=' ∷ [])
              (or_dash (λ shown. shown) a.detail) (or_dash (λ shown. shown) b.detail) h6,
        )
