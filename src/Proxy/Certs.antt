-- ===== src/Proxy/Certs.antt =====
-- server/cmd/golem-proxy/main.go: when the proxy demands client certificates.
use golem_harness.Base.{Str, ◌≡◌, true, Option, some, List, [], ◌∷◌, arith, Option-cases, inl, inr}
use golem_harness.Base.Dict.{Dict}
use golem_harness.Errors.{ok, Result-cases}
use golem_harness.Config.{
  MtlsConfig, DeviceConfig, auth_device, auth_devices, devices_require_client_cert,
}
use golem_harness.Auth.Registry.{Device, requires_client_cert}
use golem_harness.Auth.Registry.Certs.{any_bound}
use golem_harness.Proxy.{
  Outside, require_and_verify_client_cert, version_tls13, TlsConfig, transport_credentials,
  required_by, credentials_of,
}

auth_device-cert :
    (decode : Str → Option Str) (item : DeviceConfig) (device : Device)
    → auth_device decode item ≡ ok device
    → device.client_cert_fingerprint_sha256 ≡ item.client_cert_fingerprint_sha256
unfolding auth_device
auth_device-cert decode item device h =
    elim (Option-cases (decode item.ed25519_public_key_base64)) [
      | inl e ↦ absurd (ground arith)
      | inr (raw, e) ↦ ground arith
    ]

-- A device of AuthDevices names a certificate only where a configured one does.
pub auth_devices-bound :
    (decode_base64 : Str → Option Str) (items : List DeviceConfig) (devices : List Device)
    → auth_devices decode_base64 items ≡ ok devices
    → any_bound devices ≡ true
    → devices_require_client_cert items ≡ true
unfolding auth_devices devices_require_client_cert
auth_devices-bound decode [] devices h b = ground arith
auth_devices-bound decode (item ∷ items) devices h b =
    elim (Result-cases (auth_device decode item)) [
      | inr (x, e) ↦ absurd (ground arith)
      | inl (device, e) ↦ elim (Result-cases (auth_devices decode items)) [
        | inr (x, e') ↦ absurd (ground arith)
        | inl (rest, e') ↦
            ground (
              arith,
              auth_devices-bound decode items rest e',
              auth_device-cert decode item device e,
            )
      ]
    ]

-- TLS 1.3 with client certificates that are required and verified.
pub record DemandsCert {O : Outside} (creds : Option (TlsConfig O)) : Type 0 where
  pub config : TlsConfig O
  pub has : creds ≡ some config
  pub version : config.min_version ≡ version_tls13
  pub demanded : config.client_auth ≡ require_and_verify_client_cert

transport_credentials-required :
    (O : Outside) (mtls : MtlsConfig) (config : TlsConfig O)
    → mtls.require_client ≡ true
    → transport_credentials O mtls ≡ ok config
    → (config.min_version ≡ version_tls13) × (config.client_auth ≡ require_and_verify_client_cert)
unfolding transport_credentials
transport_credentials-required O mtls config r h = (ground arith, ground arith)

pub credentials_of-required :
    (O : Outside) (registry : Dict Device) (mtls : MtlsConfig) (creds : Option (TlsConfig O))
    → mtls.enabled ≡ true
    → requires_client_cert registry ≡ true
    → credentials_of O registry mtls ≡ ok creds
    → DemandsCert creds
unfolding credentials_of
credentials_of-required O registry mtls creds on r h =
    elim (Result-cases (transport_credentials O (required_by registry mtls))) [
      | inr (x, e) ↦ absurd (ground arith)
      | inl (config, e) ↦
          let (version, demanded) = transport_credentials-required O _ config (ground arith) e in
          record { config = config; has = ground arith; version = version; demanded = demanded }
    ]
