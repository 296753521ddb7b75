-- ===== src/Auth/Registry/Certs.antt =====
-- Which registries require client certificates: those of a list in which a device names one.
use golem_harness.Base.{
  Str, is_empty, ◌≡◌, ◌≢◌, Bool, true, false, ◌||◌, not, some, List, [], ◌∷◌, arith,
}
use golem_harness.Base.Dict.{Dict, lookup, insert}
use golem_harness.Errors.{ok}
use golem_harness.Auth.Registry.{
  Device, register, new_static_device_registry, lookup_device, requires_client_cert,
}

-- A device of the list names a certificate.
abbrev pub any_bound : List Device → Bool
any_bound [] = false
any_bound (d ∷ rest) = not (is_empty d.client_cert_fingerprint_sha256) || any_bound rest

requires-insert :
    (id : Str) (d : Device) (table : Dict Device)
    → requires_client_cert (insert id d table) ≡ true
    → not (is_empty d.client_cert_fingerprint_sha256) || requires_client_cert table ≡ true
unfolding requires_client_cert insert
requires-insert id d [] h = ground arith
requires-insert id d ((id', d') ∷ table) h = ground (arith, requires-insert id d table)

register-requires :
    (before : Dict Device) (list : List Device) (table : Dict Device)
    → register before list ≡ ok table
    → requires_client_cert table ≡ true
    → requires_client_cert before || any_bound list ≡ true
unfolding register
register-requires before [] table h r = ground arith
register-requires before (d ∷ rest) table h r = ground (
  arith,
  register-requires (insert d.device_id d before) rest table,
  requires-insert d.device_id d before,
)

pub lookup-requires :
    (table : Dict Device) (id : Str) (d : Device)
    → lookup_device table id ≡ some d
    → d.client_cert_fingerprint_sha256 ≢ []
    → requires_client_cert table ≡ true
unfolding lookup_device lookup requires_client_cert
lookup-requires [] id d h b = ground arith
lookup-requires ((id', d') ∷ table) id d h b = ground (arith, lookup-requires table id d)

pub registry-requires :
    (list : List Device) (table : Dict Device)
    → new_static_device_registry list ≡ ok table
    → requires_client_cert table ≡ true
    → any_bound list ≡ true
unfolding new_static_device_registry requires_client_cert
registry-requires list table h r = register-requires [] list table h r
