-- ===== src/Idempotency/Tests.antt =====
-- The hash of a request, on concrete requests.
use payment_orchestration_pl.Prelude.{◌≡◌, refl, inr}
use payment_orchestration_pl.Json.{Json, num, str, obj, end, field}
use payment_orchestration_pl.Idempotency.Canonical.{units_le}
use payment_orchestration_pl.Idempotency.Canonical.Order.{
  Reordered, ReorderedFields, build_request_hash-Reordered,
}
use payment_orchestration_pl.Idempotency.Service.{build_request_hash}
use payment_orchestration_pl.Samples.{sample_idempotency}

abbrev body : Json
body = obj (field "merchantId" (str "m1") (field "amountMinor" (num 1250) end))

abbrev other_body : Json
other_body = obj (field "amountMinor" (num 1250) (field "merchantId" (str "m1") end))

body-Reordered : Reordered body other_body
unfolding units_le
body-Reordered = Reordered.object (
    ReorderedFields.swap "merchantId" "amountMinor" (str "m1") (num 1250) end
      (inr (record { before = refl; not_after = refl })))

build_request_hash-Reordered_example :
    build_request_hash sample_idempotency body ≡ build_request_hash sample_idempotency other_body
build_request_hash-Reordered_example =
    build_request_hash-Reordered sample_idempotency body other_body body-Reordered
