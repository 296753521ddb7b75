-- ===== src/Config/Usable.antt =====
-- server/internal/config/config.go: what a configuration that was validated is good for.
use mathlib.Core.Path.{subst}
use golem_harness.Base.{
  ℕ, ◌<◌, ◌≤◌, ◌*◌, Str, ◌≡◌, ◌≢◌, ◌⊎◌, true, Option, List, [], ◌∷◌, arith, length, Option-cases,
  inl, inr,
}
use golem_harness.Base.Int.{pos, ◌≤ℤ◌, ◌<ℤ◌}
use golem_harness.Base.Dict.{Dict}
use golem_harness.Clock.{second, max_duration}
use golem_harness.Errors.{ok, Result-cases}
use golem_harness.Platform.{public_key_size}
use golem_harness.Auth.{effective_ttl}
use golem_harness.Auth.Registry.{Device, new_static_device_registry}
use golem_harness.Auth.Registry.Laws.{AllUsable, new_static_device_registry_total}
use golem_harness.Config.{
  DeviceConfig, Config, devices_require_client_cert, auth_device, auth_devices, validate, load,
  signature_ttl,
}

module _ (decode_base64 : Str → Option Str) where
  auth_device-usable :
      (item : DeviceConfig) (device : Device)
      → auth_device decode_base64 item ≡ ok device
      → (device.device_id ≢ []) × (length device.public_key ≡ public_key_size)
  unfolding auth_device
  auth_device-usable item device h =
      elim (Option-cases (decode_base64 item.ed25519_public_key_base64)) [
        | inl x ↦ absurd (ground arith)
        | inr (raw, x) ↦ (ground arith, ground arith)
      ]

  -- Every device that AuthDevices returns has an id and a key of 32 bytes.
  pub auth_devices-AllUsable :
      (items : List DeviceConfig) (devices : List Device)
      → auth_devices decode_base64 items ≡ ok devices
      → AllUsable devices
  unfolding auth_devices
  auth_devices-AllUsable [] [] h = tt
  auth_devices-AllUsable [] (device ∷ rest) h = absurd (ground arith)
  auth_devices-AllUsable (item ∷ items) devices h =
      elim (Result-cases (auth_device decode_base64 item)) [
        | inr (x, e) ↦ absurd (ground arith)
        | inl (device, e) ↦ elim (Result-cases (auth_devices decode_base64 items)) [
          | inr (x, e') ↦ absurd (ground arith)
          | inl (rest, e') ↦
              let same : ◌≡◌ {A = List Device} (device ∷ rest) devices = ground arith in
              subst AllUsable same
                (auth_device-usable item device e, auth_devices-AllUsable items rest e')
        ]
      ]

  module _ (replay_path_beside : Str → Str) where
    -- What a validated configuration gives the proxy.
    pub record IsUsable (c : Config) : Type 0 where
      pub devices : List Device
      pub table : Dict Device
      pub decoded : auth_devices decode_base64 c.allowed_devices ≡ ok devices
      pub registry : new_static_device_registry devices ≡ ok table
      pub payload : pos 1024 ≤ℤ c.max_payload_bytes
      pub ttl : pos 1 ≤ℤ c.signature_ttl_seconds
      pub rotation : pos 0 ≤ℤ c.storage_rotate_max_bytes
      pub addresses : (c.grpc_addr ≢ []) × (c.http_addr ≢ [])
      pub storage : c.storage_path ≢ []
      pub replay : (c.replay_path ≢ []) ⊎ (c.replay_path ≡ replay_path_beside c.storage_path)
      pub packages : c.allowed_packages ≢ []
      pub certs :
          devices_require_client_cert c.allowed_devices ≡ true
          → (c.mtls.enabled ≡ true) × (c.mtls.require_client ≡ true)
      pub files :
          c.mtls.enabled ≡ true
          → (c.mtls.cert_file ≢ []) × (c.mtls.key_file ≢ []) × (c.mtls.client_ca_file ≢ [])

    -- A configuration that Validate returns makes a registry of its devices, has a payload bound
    -- of at least 1024 bytes, a time to live of at least a second, a rotation bound that is not
    -- negative, both addresses, a storage path and an allowed package; its replay path is not
    -- empty or the one beside the storage path; a device with a certificate makes mutual TLS
    -- enabled and client certificates required, and enabled mutual TLS has its three files.
    pub validate-IsUsable :
        (c c' : Config) → validate decode_base64 replay_path_beside c ≡ ok c' → IsUsable c'
    unfolding validate
    validate-IsUsable c c' h = elim (Result-cases (auth_devices decode_base64 c.allowed_devices)) [
      | inr (x, e) ↦ absurd (ground arith)
      | inl (devices, e) ↦
          let (table, made) =
            new_static_device_registry_total devices
              (auth_devices-AllUsable c.allowed_devices devices e) in
          record {
            devices = devices;
            table = table;
            decoded = ground arith;
            registry = made;
            payload = ground arith;
            ttl = ground arith;
            rotation = ground arith;
            addresses = ground arith;
            storage = ground arith;
            replay = ground arith;
            packages = ground arith;
            certs = ground arith;
            files = ground arith;
          }
    ]

    -- What Load returns has been validated.
    pub load-IsUsable :
        (read_file : Str → Option Str) (unmarshal : Str → Option Config) (path : Str) (c : Config)
        → load decode_base64 replay_path_beside read_file unmarshal path ≡ ok c
        → IsUsable c
    unfolding load
    load-IsUsable read_file unmarshal path c h = elim (Option-cases (read_file path)) [
      | inl e ↦ absurd (ground arith)
      | inr (data', e) ↦ elim (Option-cases (unmarshal data')) [
        | inl e' ↦ absurd (ground arith)
        | inr (c0, e') ↦ validate-IsUsable c0 c (ground arith)
      ]
    ]

-- The verifier's time to live is the configured number of seconds, and below the largest duration,
-- where that number is positive and at most 9223372035.
signature_ttl_exact :
    (c : Config) (n : ℕ)
    → c.signature_ttl_seconds ≡ pos n
    → 0 < n
    → n ≤ 9_223_372_035
    → (signature_ttl c ≡ pos (n * second)) × (effective_ttl (signature_ttl c) <ℤ max_duration)
unfolding signature_ttl
signature_ttl_exact c n e positive small = (ground arith, ground arith)
