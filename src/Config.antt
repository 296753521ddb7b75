-- ===== src/Config.antt =====
-- server/internal/config/config.go: the configuration file. Base64, the path of a file beside
-- another, reading a file and decoding JSON are parameters.
pub mod Usable
use golem_harness.Base.{
  ℕ, ◌*◌, ◌-◌, ◌%◌, ◌^◌, Str, text, is_empty, Bool, true, false, ◌||◌, ◌&&◌, not, Option, none,
  some, List, [], ◌∷◌, length, ◌==◌, ltb, if◌then◌else◌,
}
use golem_harness.Base.Int.{ℤ, pos, negsuc, ltb_ℤ, pos_part}
use golem_harness.Clock.{Duration, second, is_zero}
use golem_harness.Errors.{Result, ok, err, plain, ◌>>=◌, ◌>>◌, refuse}
use golem_harness.Platform.{public_key_size}
use golem_harness.Auth.Registry.{Device}

pub record DeviceConfig : Type 0 where
  pub device_id : Str
  pub ed25519_public_key_base64 : Str
  pub public_key_id : Str
  pub client_cert_fingerprint_sha256 : Str

pub record MtlsConfig : Type 0 where
  pub enabled : Bool
  pub cert_file : Str
  pub key_file : Str
  pub client_ca_file : Str
  pub require_client : Bool

pub record Config : Type 0 where
  pub grpc_addr : Str
  pub http_addr : Str
  pub storage_path : Str
  pub replay_path : Str
  pub storage_rotate_max_bytes : ℤ
  pub storage_rotate_daily : Bool
  pub storage_fsync : Option Bool
  pub max_payload_bytes : ℤ
  pub signature_ttl_seconds : ℤ
  pub allowed_packages : List Str
  pub sensitive_packages : List Str
  pub allowed_devices : List DeviceConfig
  pub mtls : MtlsConfig

-- DefaultMaxPayloadBytes, DefaultSignatureTTL
abbrev pub default_max_payload_bytes : ℤ
default_max_payload_bytes = pos (64 * 1024)

abbrev pub default_signature_ttl : Duration
default_signature_ttl = pos (300 * second)

-- The int64 that stands for a number.
abbrev pub wrap_int64 : ℕ → ℤ
wrap_int64 n =
    let low = n % 2 ^ 64 in if ltb low (2 ^ 63) then pos low else negsuc (2 ^ 64 - 1 - low)

-- SignatureTTL
unfoldable pub signature_ttl : Config → Duration
signature_ttl c =
    if ltb_ℤ (pos 0) c.signature_ttl_seconds
    then wrap_int64 (pos_part c.signature_ttl_seconds * second)
    else default_signature_ttl

-- StorageFsyncEnabled
unfoldable pub storage_fsync_enabled : Config → Bool
storage_fsync_enabled c = elim c.storage_fsync [ none ↦ true | some sync ↦ sync ]

-- The loop over the devices that looks for a fingerprint.
unfoldable pub devices_require_client_cert : List DeviceConfig → Bool
devices_require_client_cert [] = false
devices_require_client_cert (d ∷ rest) =
    not (is_empty d.client_cert_fingerprint_sha256) || devices_require_client_cert rest

-- What Validate fills in, step by step.
abbrev pub with_max_payload : Config → Config
with_max_payload c = record c {
  max_payload_bytes =
      if is_zero c.max_payload_bytes then default_max_payload_bytes else c.max_payload_bytes;
}

abbrev pub with_ttl : Config → Config
with_ttl c = record c {
  signature_ttl_seconds =
      if is_zero c.signature_ttl_seconds then pos 300 else c.signature_ttl_seconds;
}

abbrev pub with_required_client : Config → Config
with_required_client c = record c {
  mtls = record c.mtls {
    require_client = c.mtls.require_client || devices_require_client_cert c.allowed_devices;
  };
}

module _ (decode_base64 : Str → Option Str) where
  -- The body of the loop of AuthDevices. The error texts leave out the device's id and the cause.
  unfoldable pub auth_device : DeviceConfig → Result Device
  auth_device item =
      if is_empty item.device_id
      then err (plain (text "allowed device_id is required"))
      else elim (decode_base64 item.ed25519_public_key_base64) [
        | none ↦ err (plain (text "decode device public key"))
        | some raw ↦
            if not (length raw == public_key_size)
            then err (plain (text "device public key must be 32 bytes"))
            else ok (record {
              device_id = item.device_id;
              public_key = raw;
              public_key_id = item.public_key_id;
              client_cert_fingerprint_sha256 = item.client_cert_fingerprint_sha256;
            })
      ]

  -- AuthDevices
  unfoldable pub auth_devices : List DeviceConfig → Result (List Device)
  auth_devices [] = ok []
  auth_devices (item ∷ rest) = do
    device ← auth_device item
    devices ← auth_devices rest
    ok (device ∷ devices)

  module _ (replay_path_beside : Str → Str) where
    abbrev pub with_replay_path : Config → Config
    with_replay_path c = record c {
      replay_path =
          if is_empty c.replay_path then replay_path_beside c.storage_path else c.replay_path;
    }

    -- Validate; the configuration comes back with its defaults. One that is refused is thrown away.
    unfoldable pub validate : Config → Result Config
    validate c = do
      refuse (is_empty c.grpc_addr) (plain (text "grpc_addr is required"))
      refuse (is_empty c.http_addr) (plain (text "http_addr is required"))
      refuse (is_empty c.storage_path) (plain (text "storage_path is required"))
      let c1 = with_replay_path c
      refuse (ltb_ℤ c1.storage_rotate_max_bytes (pos 0))
          (plain (text "storage_rotate_max_bytes must be non-negative"))
      refuse (length c1.allowed_devices == 0)
          (plain (text "at least one allowed device is required"))
      refuse (length c1.allowed_packages == 0)
          (plain (text "at least one allowed package is required"))
      let c2 = with_max_payload c1
      refuse (ltb_ℤ c2.max_payload_bytes (pos 1024))
          (plain (text "max_payload_bytes must be at least 1024"))
      let c3 = with_ttl c2
      refuse (ltb_ℤ c3.signature_ttl_seconds (pos 1))
          (plain (text "signature_ttl_seconds must be positive"))
      refuse
          (c3.mtls.enabled
            && (is_empty c3.mtls.cert_file
                || is_empty c3.mtls.key_file
                || is_empty c3.mtls.client_ca_file))
          (plain
            (text "mtls cert_file, key_file, and client_ca_file are required when mtls is enabled"))
      refuse (devices_require_client_cert c3.allowed_devices && not c3.mtls.enabled)
          (plain (text "mtls must be enabled when a device sets client_cert_fingerprint_sha256"))
      let c4 = with_required_client c3
      auth_devices c4.allowed_devices >>= λ devices. ok c4

    -- Load, over what reads a file and what decodes it
    unfoldable pub load : (Str → Option Str) → (Str → Option Config) → Str → Result Config
    load read_file unmarshal path =
        if is_empty path
        then err (plain (text "config path is required"))
        else elim (read_file path) [
          | none ↦ err (plain (text "read config"))
          | some data' ↦ elim (unmarshal data') [
            | none ↦ err (plain (text "parse config"))
            | some c ↦ validate c
          ]
        ]
