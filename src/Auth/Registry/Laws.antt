-- ===== src/Auth/Registry/Laws.antt =====
-- The static registry: it holds the last device given for each id, and every key has 32 bytes.
use mathlib.Core.Path.{subst}
use golem_harness.Base.{
  Str, is_empty, ◌≡◌, ◌≢◌, refl, false, Option, none, some, List, [], ◌∷◌, length, arith, str_eq,
  str_eq_iff, if◌then◌else◌,
}
use golem_harness.Base.Dict.{Dict, lookup, insert, lookup-insert}
use golem_harness.Errors.{ok}
use golem_harness.Platform.{public_key_size}
use golem_harness.Auth.Registry.{Device, register, new_static_device_registry, lookup_device}

-- The last device of the list with the id, or else what stood before.
abbrev pub last_of : Str → List Device → Option Device → Option Device
last_of id [] before = before
last_of id (device ∷ rest) before =
    last_of id rest (if str_eq device.device_id id then some device else before)

register-lookup :
    (devices : Dict Device) (list : List Device) (table : Dict Device) (id : Str)
    → register devices list ≡ ok table
    → lookup id table ≡ last_of id list (lookup id devices)
unfolding register
register-lookup devices [] table id h = ground arith
register-lookup devices (device ∷ rest) table id h = ground (
  arith,
  register-lookup (insert device.device_id device devices) rest table id,
  lookup-insert device.device_id id device devices,
)

-- A registry that was made finds, for each id, the last device that was given with it.
pub lookup_device-eq-last :
    (list : List Device) (table : Dict Device) (id : Str)
    → new_static_device_registry list ≡ ok table
    → lookup_device table id ≡ last_of id list none
unfolding new_static_device_registry lookup_device lookup
lookup_device-eq-last list table id h = register-lookup [] list table id h

-- What every entry of a registry is.
pub record IsWellFormed (table : Dict Device) : Type 0 where
  pub key_size :
      (id : Str) (device : Device)
      → lookup_device table id ≡ some device
      → length device.public_key ≡ public_key_size
  pub id_of :
      (id : Str) (device : Device)
      → lookup_device table id ≡ some device
      → (device.device_id ≡ id) × (id ≢ [])

IsWellFormed-insert :
    (device : Device) (table : Dict Device)
    → is_empty device.device_id ≡ false
    → length device.public_key ≡ public_key_size
    → IsWellFormed table
    → IsWellFormed (insert device.device_id device table)
unfolding lookup_device
IsWellFormed-insert device table named sized w = record {
  key_size =
      λ id d h. ground (arith, w.key_size id d, lookup-insert device.device_id id device table);
  id_of = λ id d h. ground (
    arith,
    w.id_of id d,
    lookup-insert device.device_id id device table,
    str_eq_iff device.device_id id,
  );
}

register-IsWellFormed :
    (devices : Dict Device) (list : List Device) {table : Dict Device}
    → IsWellFormed devices
    → register devices list ≡ ok table
    → IsWellFormed table
unfolding register
register-IsWellFormed devices [] w h = subst IsWellFormed (cc) w
register-IsWellFormed devices (device ∷ rest) w h =
    register-IsWellFormed (insert device.device_id device devices) rest
      (IsWellFormed-insert device devices (ground arith) (ground arith) w) (ground arith)

-- Every device that a registry finds has a key of 32 bytes and the id that was asked for, which is
-- not empty.
pub new_static_device_registry-IsWellFormed :
    (list : List Device) {table : Dict Device}
    → new_static_device_registry list ≡ ok table
    → IsWellFormed table
unfolding new_static_device_registry lookup_device lookup
new_static_device_registry-IsWellFormed list h =
    register-IsWellFormed [] list
      (record { key_size = λ id device e. ground arith; id_of = λ id device e. ground arith }) h

-- Every device has an id and a key of 32 bytes.
abbrev pub AllUsable : List Device → Type 0
AllUsable [] = Unit
AllUsable (device ∷ rest) =
    ((device.device_id ≢ []) × (length device.public_key ≡ public_key_size)) × AllUsable rest

register_total :
    (devices : Dict Device) (list : List Device)
    → AllUsable list
    → (table : Dict Device) × (register devices list ≡ ok table)
unfolding register
register_total devices [] u = (devices, refl)
register_total devices (device ∷ rest) u =
    let (table, e) = register_total (insert device.device_id device devices) rest u.1 in
    (table, ground arith)

-- A registry is made from any list of devices that all have an id and a key of 32 bytes.
pub new_static_device_registry_total :
    (list : List Device)
    → AllUsable list
    → (table : Dict Device) × (new_static_device_registry list ≡ ok table)
unfolding new_static_device_registry
new_static_device_registry_total list u = register_total [] list u
