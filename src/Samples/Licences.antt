-- ===== src/Samples/Licences.antt =====
-- Examples for documents that are signed and licences that are issued.
use traceability.Base.{
  ℕ, zero, suc, ◌+◌, ◌*◌, ◌^◌, ◌≤◌, String, true, false, [], ◌∷◌, none, some, ok, ◌≡◌, ◌≢◌, arith,
  ◌↔◌, ◌⊎◌, ◌∙◌, refl, ap, ◌==◌, if◌then◌else◌, bytes_eq, bytes_eq_refl, ok_inj,
}
use Prim.Native.Char.{code}
use traceability.Core.Chain.{Bytes, replicate}
use traceability.Sign
use traceability.Sign.Canonical.{
  Json, object, array, Members, no_members, member, no_items, item, Encoders, other, Signing,
  canonical_json, short_key_id, write_canonical, sign,
}
use traceability.Sign.Reordering.{
  IsReordered, arrays, objects, next, swapped, no_more, write_canonical-same,
}
use traceability.Sign.Issuing.{IsMatching, IsReadBack, sign-verify}
use traceability.License.Entitlement.{
  Entitlement, professional, default_limits, cloud_sync, full, LicenseStatus, schema_version, day,
  evaluate, grace_end, status_at, enforcement_at, summary_at, num_days, check_schema, check_node,
}
use traceability.License.Entitlement
use traceability.License.Expiry.{MayUse}
use traceability.Billing.{
  PlanDefinition, PlanCatalog, past_due, IssueRequest, is_entitled, plan_for_price, get_plan,
  expiry, entitlement_for, backdated, issue,
}
use traceability.Billing.Issued.{issue-enforcement_iff}

-- A number in strokes, and a text of numbers.
abbrev strokes : ℕ → String → String
strokes zero rest = String.◌∷◌ "b" rest
strokes (suc n) rest = String.◌∷◌ "a" (strokes n rest)

abbrev encode : Bytes → String
encode [] = ""
encode (n ∷ bytes) = strokes n (encode bytes)

abbrev add_stroke : Bytes → Bytes
add_stroke [] = []
add_stroke (n ∷ bytes) = suc n ∷ bytes

abbrev decode : String → Bytes
decode String.[] = []
decode (String.◌∷◌ c rest) = if code c == b'a' then add_stroke (decode rest) else 0 ∷ decode rest

decode-strokes : (n : ℕ) (rest : String) → decode (strokes n rest) ≡ n ∷ decode rest
decode-strokes zero rest = refl
decode-strokes (suc n) rest = ap add_stroke (decode-strokes n rest)

decode-encode : (bytes : Bytes) → decode (encode bytes) ≡ bytes
decode-encode [] = refl
decode-encode (n ∷ bytes) =
    decode-strokes n (encode bytes) ∙ ap (λ rest. n ∷ rest) (decode-encode bytes)

-- The secret key and the public one are one number, and a signature repeats it.
abbrev signing : Signing ℕ ℕ Entitlement (Unit {0})
signing = record {
  encoders = record { show = λ scalar. []; quote = λ key. key };
  to_value = λ doc. ok (other tt);
  encode = encode;
  sign = λ secret bytes. replicate 64 secret;
  verifying_key = λ secret. secret;
  to_bytes = λ key. key ∷ [];
  sha256 = λ bytes. bytes;
  hex = encode;
}

abbrev plan : PlanDefinition
plan = record {
  stripe_price_id = "price";
  display_name = "Professional";
  tier = professional;
  limits = default_limits;
  features = cloud_sync ∷ cloud_sync ∷ [];
  grace_days = 1;
}

abbrev catalog : PlanCatalog
catalog = record { plans = ("price", plan) ∷ [] }

abbrev request : IssueRequest
request = record {
  subscription = record {
    subscription_id = "sub";
    customer_id = "cus";
    price_id = "price";
    status = past_due;
    current_period_end = day + 9;
    cancel_at_period_end = false;
  };
  tenant_code = "T";
  customer_name = "Plant";
  node_id = none;
  license_id = "L";
}

abbrev entitlement : Entitlement
entitlement = entitlement_for plan request day 0

abbrev crates : Sign.Crates ℕ Entitlement
crates = record {
  decode = λ s. ok (decode s);
  checks = λ key payload signature. bytes_eq signature (replicate 64 key);
  from_slice = λ payload. ok entitlement;
}

matching : IsMatching signing crates
matching = record {
  decode_encode = λ bytes. ap ok (decode-encode bytes);
  signature_length = λ secret bytes. refl;
  checks_sign = λ secret bytes. bytes_eq_refl (replicate 64 secret);
}

abbrev envelope : Sign.Envelope
envelope = record {
  alg = "ed25519";
  payload_b64 = "";
  signature_b64 = encode (replicate 64 3);
  key_id = "aaab";
}

signed : sign signing 3 entitlement ≡ ok envelope
unfolding sign canonical_json write_canonical short_key_id Sign.map_err
signed = refl

sign-verify_example : Sign.verify crates 3 envelope ≡ ok entitlement
sign-verify_example =
    sign-verify signing crates matching 3 entitlement envelope (λ value h. refl) signed

known_plan : (p : PlanDefinition) → plan_for_price catalog "price" ≡ ok p → plan ≡ p
unfolding plan_for_price get_plan
known_plan p h = ok_inj h

read_back :
    (p : PlanDefinition)
    → plan_for_price catalog "price" ≡ ok p
    → IsReadBack signing crates (entitlement_for p request day 0)
read_back p h value v = ap (λ q. ok (entitlement_for q request day 0)) (known_plan p h)

issued : issue signing 3 catalog request day ≡ ok (some envelope)
unfolding issue plan_for_price get_plan backdated sign canonical_json write_canonical short_key_id
    Sign.map_err
issued = refl

abbrev status : LicenseStatus
status = record {
  entitlement = some entitlement;
  enforcement = enforcement_at entitlement (day + 9 + 1 * day) 5;
  summary = summary_at entitlement (day + 9 + 1 * day) 5;
  days_to_expiry = some (num_days (expiry request.subscription day) 5);
}

verified : Entitlement.verify (10 ^ 30) crates envelope 3 "box" 5 ≡ ok (some status)
unfolding Entitlement.verify Entitlement.check_schema Entitlement.check_node Sign.verify
    Sign.map_err Sign.signature_bytes evaluate grace_end status_at entitlement_for expiry
    is_entitled bytes_eq
verified = refl

issue-enforcement_iff_example :
    ((status.enforcement ≡ full) ↔ ((day ≤ 5 + day) × (5 ≤ expiry request.subscription day)))
    × (((is_entitled past_due ≡ true) × (expiry request.subscription day ≡ day + 9))
        ⊎ ((is_entitled past_due ≡ false)
            × (expiry request.subscription day ≤ day + 9)
            × (expiry request.subscription day ≤ day)))
issue-enforcement_iff_example =
    issue-enforcement_iff signing crates matching (10 ^ 30) 3 catalog request day 5 envelope "box"
      status read_back issued MayUse.unlocked verified

abbrev encoders : Encoders (Unit {0})
encoders = record { show = λ scalar. b'0' ∷ []; quote = λ key. b'q' ∷ key }

-- Two members, in one order and the other, in an array.
abbrev ab : Members (Unit {0})
ab = member (b'a' ∷ []) (other tt) (member (b'b' ∷ []) (other tt) no_members)

abbrev ba : Members (Unit {0})
ba = member (b'b' ∷ []) (other tt) (member (b'a' ∷ []) (other tt) no_members)

abbrev listed : Members (Unit {0}) → Json (Unit {0})
listed members = array (item (object members) no_items)

a-b : ◌≢◌ {A = Bytes} (b'a' ∷ []) (b'b' ∷ [])
a-b h = ground (arith, h)

ab-IsReordered : IsReordered (listed ab) (listed ba)
ab-IsReordered = arrays (item (object ab) no_items) (item (object ba) no_items) (
    next (object ab) (object ba) no_items no_items
      (objects ab ba (swapped (b'a' ∷ []) (b'b' ∷ []) (other tt) (other tt) no_members a-b))
      no_more)

write_canonical-same_example :
    write_canonical encoders (listed ab) ≡ write_canonical encoders (listed ba)
write_canonical-same_example = write_canonical-same encoders (listed ab) (listed ba) ab-IsReordered
