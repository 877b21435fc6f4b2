-- ===== src/Control/Coherent.antt =====
-- src/control.rs: what the client accepts as a receipt.
use asense.Result.{ok, >>=-succeeds, ok_injective, ◌>>◌}
use asense.Base.{◌≡◌, ap, subst, Bool, true, false, Option, none, some, List, [], ◌∷◌, arith}
use asense.Base.Text.{Bytes, codes, strip_prefix}
use asense.Base.Hex.{parse_hex-bounded}
use asense.Base.Decimal.{parse_uint, parse_uint-bounded}
use asense.Control.{
  require_capability, profile_token, validate_profile_token, required, parse_exact_fields,
}
use asense.Control.Receipt.{
  ProfilePowerReceipt, ProfileApplyReceipt, receipt_names, u32_max, u64_max, parse_offsets,
  parse_capability, parse_reasons, parse_power, consistent, receipt_fields,
  parse_profile_apply_receipt,
}
use asense.Control.RoundTrip.{IsPower, IsReceipt, consistent-IsCoherent}

required-ok : {A : Type 0} (o : Option A) (a : A) → required o ≡ ok a → o ≡ some a
required-ok none a h = cc
required-ok (some b) a h = ap some (ok_injective h)

parse_power-IsPower :
    (powered : Bool) (enforced maximum reasons : Bytes) (power : Option ProfilePowerReceipt)
    → parse_power powered enforced maximum reasons ≡ ok power
    → IsPower power
unfolding parse_power parse_reasons
parse_power-IsPower false enforced maximum reasons power h =
    let absent : none ≡ power = ground (arith, h) in subst IsPower absent tt
parse_power-IsPower true enforced maximum reasons power h =
    let (e, he, h1) = >>=-succeeds (required (parse_uint u32_max enforced)) _ h in
    let (m, hm, h2) = >>=-succeeds (required (parse_uint u32_max maximum)) _ h1 in
    let (r, hr, h3) = >>=-succeeds (parse_reasons reasons) _ h2 in
    let (bits, hd, h4) = >>=-succeeds (required (strip_prefix (codes "0x") reasons)) _ hr in
    subst IsPower (ok_injective h3) (
      parse_uint-bounded u32_max enforced e (required-ok _ e he),
      parse_uint-bounded u32_max maximum m (required-ok _ m hm),
      parse_hex-bounded u64_max bits r (required-ok _ r h4),
    )

receipt_fields-IsReceipt :
    (values : List Bytes) (receipt : ProfileApplyReceipt)
    → receipt_fields values ≡ ok receipt
    → IsReceipt receipt
unfolding receipt_fields validate_profile_token
receipt_fields-IsReceipt
      (profile ∷ gpu ∷ pstates ∷ gpu_capability ∷ capability ∷ enforced ∷ maximum ∷ reasons ∷ [])
      receipt h =
    let (offsets, first, h1) =
      >>=-succeeds (require_capability (profile_token profile) true >> parse_offsets gpu) _ h in
    let (u, valid, ho) =
      >>=-succeeds (require_capability (profile_token profile) true) (λ _. parse_offsets gpu)
        first in
    let (count, hn, h2) = >>=-succeeds (required (parse_uint u64_max pstates)) _ h1 in
    let (available, ha, h3) = >>=-succeeds (parse_capability gpu_capability) _ h2 in
    let (powered, hp, h4) = >>=-succeeds (parse_capability capability) _ h3 in
    let (power, hw, h5) = >>=-succeeds (parse_power powered enforced maximum reasons) _ h4 in
    let agree : consistent available offsets count power ≡ true = ground (arith, h5) in
    let same = ok_injective (rw agree at h5) in
    subst IsReceipt same (
      ground (arith, valid),
      parse_uint-bounded u64_max pstates count (required-ok _ count hn),
      parse_power-IsPower powered enforced maximum reasons power hw,
      (consistent-IsCoherent available offsets count power).0 agree,
    )
receipt_fields-IsReceipt values receipt h = ground (arith, h)

-- Whatever the daemon answers, a receipt that the client takes has a profile token, numbers within their
-- types, and parts that agree on whether there is a GPU.
pub parse_profile_apply_receipt-IsReceipt :
    (value : Bytes) (receipt : ProfileApplyReceipt)
    → parse_profile_apply_receipt value ≡ ok receipt
    → IsReceipt receipt
unfolding parse_profile_apply_receipt
parse_profile_apply_receipt-IsReceipt value receipt h =
    let (values, parsed, rest) = >>=-succeeds (parse_exact_fields value receipt_names) _ h in
    receipt_fields-IsReceipt values receipt rest
