-- ===== src/Tests/Envelopes.antt =====
-- Test data: a key, a device, an envelope before and after signing, and a verifier.
use golem_harness.Base.{Str, text, str_eq, ◌≡◌, refl, some, [], ◌∷◌, ◌++◌}
use golem_harness.Base.Int.{pos}
use golem_harness.Base.Dict.{Dict}
use golem_harness.Errors.{ok}
use golem_harness.Platform.{hex_encode}
use golem_harness.Signing.{
  SignedEnvelope, signature_alg_ed25519, hash_payload, layout, canonical_bytes, sign_envelope,
}
use golem_harness.Auth.{Verifier}
use golem_harness.Auth.Registry.{Device, lookup_device}
use golem_harness.Auth.Memory.{new_memory_replay_guard}
use golem_harness.Auth.Memory.Laws.{memory_guard}
use golem_harness.Tests.Toy.{toy, repeated, checksum}

abbrev pub key : Str
key = repeated 64 7

abbrev pub device : Device
device = record {
  device_id = text "d1";
  public_key = repeated 32 7;
  public_key_id = [];
  client_cert_fingerprint_sha256 = [];
}

abbrev pub table : Dict Device
table = (text "d1", device) ∷ []

abbrev pub unsigned : SignedEnvelope
unsigned = record {
  protocol_version = text "v1";
  device_id = text "d1";
  trajectory_id = text "t1";
  frame_id = text "f1";
  sequence = 7;
  signed_at = pos 5;
  payload = text "{}";
  detached_signature = [];
  payload_sha256_hex = [];
  signature_alg = [];
  public_key_id = [];
  client_cert_fingerprint_sha256 = [];
}

abbrev pub hashed_envelope : SignedEnvelope
hashed_envelope = record unsigned {
  signature_alg = signature_alg_ed25519;
  payload_sha256_hex = hash_payload toy (text "{}");
}

abbrev pub signed : SignedEnvelope
signed = record hashed_envelope {
  detached_signature = repeated 32 7 ++ checksum (layout toy hashed_envelope);
}

pub sign_unsigned : sign_envelope toy key unsigned ≡ ok signed
unfolding sign_envelope canonical_bytes signature_alg_ed25519 hash_payload str_eq hex_encode
sign_unsigned = refl

abbrev pub verifier : Verifier memory_guard
verifier = record {
  registry = some (lookup_device table);
  replay_guard = some new_memory_replay_guard;
  max_payload_bytes = pos 1024;
  ttl = pos 60_000_000_000;
}
