-- ===== src/Auth/Registry.antt =====
-- server/internal/auth/auth.go: devices and the static registry.
pub mod Laws
pub mod Certs
use golem_harness.Base.{
  Str, text, is_empty, Bool, false, ◌||◌, not, Option, List, [], ◌∷◌, length, ◌==◌, if◌then◌else◌,
}
use golem_harness.Base.Dict.{Dict, lookup, insert}
use golem_harness.Errors.{malformed, Result, ok, err}
use golem_harness.Platform.{public_key_size}

pub record Device : Type 0 where
  pub device_id : Str
  pub public_key : Str
  pub public_key_id : Str
  pub client_cert_fingerprint_sha256 : Str

-- The loop of NewStaticDeviceRegistry: a device with an id that stands already takes its place.
-- The error texts leave out the device's id.
register : Dict Device → List Device → Result (Dict Device)
register devices [] = ok devices
register devices (device ∷ rest) =
    let next = register (insert device.device_id device devices) rest in
    if is_empty device.device_id
    then err (malformed (text "device id is required"))
    else if not (length device.public_key == public_key_size)
    then err (malformed (text "device public key must be 32 bytes"))
    else next

-- NewStaticDeviceRegistry
unfoldable pub new_static_device_registry : List Device → Result (Dict Device)
unfolding register
new_static_device_registry devices = register [] devices

-- LookupDevice
unfoldable pub lookup_device : Dict Device → Str → Option Device
lookup_device devices device_id = lookup device_id devices

-- RequiresClientCert
unfoldable pub requires_client_cert : Dict Device → Bool
requires_client_cert [] = false
requires_client_cert ((_, d) ∷ devices) =
    not (is_empty d.client_cert_fingerprint_sha256) || requires_client_cert devices
