-- ===== src/Errors.antt =====
-- The errors of server/pkg/signing/signing.go and server/internal/auth/auth.go, and Go's pair of a
-- value and an error.
use golem_harness.Base.{Str, ◌≡◌, refl, ◌⊎◌, inl, inr, Bool, true, false}

-- The sentinels that `errors.Is` can find. `malformed` carries the text that `%w: ...` adds.
-- `plain` is an error with no sentinel. `panic` is no error: `ed25519.Verify` panics on a public
-- key of another length.
pub data Error : Type 0 where
  missing_signature invalid_signature expired_payload future_payload oversized_payload : Error
  unauthorized replay replay_state_full cert_mismatch : Error
  malformed : Str → Error
  plain : Str → Error
  panic : Error

pub data Result {ℓ} (A : Type ℓ) : Type ℓ where
  ok : A → Result A
  err : Error → Result A

-- if bad { return e }
abbrev pub refuse : Bool → Error → Result (Unit {0})
refuse true failure = err failure
refuse false failure = ok tt

infixl 5 ◌>>=◌ ◌>>◌
-- A step after which a check runs, and one that gives a value.
abbrev pub ◌>>◌ {ℓ} : {B : Type ℓ} → Result (Unit {0}) → Result B → Result B
ok _ >> next = next
err failure >> next = err failure

abbrev pub ◌>>=◌ {ℓ κ} : {A : Type ℓ} {B : Type κ} → Result A → (A → Result B) → Result B
ok found >>= next = next found
err failure >>= next = err failure

pub Result-cases {ℓ} :
    {A : Type ℓ} (m : Result A) → ((a : A) × (m ≡ ok a)) ⊎ ((e : Error) × (m ≡ err e))
Result-cases (ok a) = inl (a, refl)
Result-cases (err e) = inr (e, refl)
