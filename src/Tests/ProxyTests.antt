-- ===== src/Tests/ProxyTests.antt =====
-- The proxy on a configuration with one device, over plain tables and a disk of one file.
use golem_harness.Base.{
  ◌+◌, ◌^◌, arith, ltb, if◌then◌else◌, Str, text, ◌≡◌, refl, Bool, true, false, none, some, [], ◌∷◌,
}
use golem_harness.Base.Int.{pos}
use golem_harness.Errors.{ok}
use golem_harness.Config.{
  Config, load, validate, auth_device, auth_devices, devices_require_client_cert,
}
use golem_harness.Ingest.Timed.{Readings}
use golem_harness.Proxy.{Outside, Proxy, serving, start, server_options, with_headroom}
use golem_harness.Proxy.Bounds.{message_bound}
use golem_harness.Proxy.Starting.{IsServing, Sound, start-Sound}
use golem_harness.Proxy.Serving.{IsWorking, start_serves}
use golem_harness.Tests.Toy.{toy, repeated}
use golem_harness.Tests.Frames.{has_at}
use golem_harness.Tests.GuardTests.{tables, tables-IsTransactional, no_rows}
use golem_harness.Tests.LivesTests.{file, file-IsDurable}
use golem_harness.Tests.StorageTests.{disk, names, encoded, sink}

abbrev pub config : Str → Bool → Config
config fingerprint enabled = record {
  grpc_addr = text ":7443";
  http_addr = text ":8080";
  storage_path = text "frames.jsonl";
  replay_path = text "replay.db";
  storage_rotate_max_bytes = pos 0;
  storage_rotate_daily = false;
  storage_fsync = none;
  max_payload_bytes = pos 4096;
  signature_ttl_seconds = pos 60;
  allowed_packages = text "com.calc" ∷ [];
  sensitive_packages = [];
  allowed_devices =
      record {
        device_id = text "d1";
        ed25519_public_key_base64 = text "key";
        public_key_id = [];
        client_cert_fingerprint_sha256 = fingerprint;
      }
      ∷ [];
  mtls = record {
    enabled = enabled;
    cert_file = text "cert.pem";
    key_file = text "key.pem";
    client_ca_file = text "ca.pem";
    require_client = enabled;
  };
}

-- Every file can be read, and the only key is that of the test device.
abbrev pub outside : Str → Bool → Outside
outside fingerprint enabled = record {
  read_file = λ path. some path;
  decode_config = λ written. some (config fingerprint enabled);
  decode_base64 = λ s. some (repeated 32 7);
  replay_path_beside = λ path. text "replay.db";
  no_directory = λ path. false;
  Certificate = Str;
  CertPool = Str;
  load_x509_key_pair = λ cert key. some cert;
  append_certs_from_pem = λ pem. some pem;
}

abbrev bound : Outside
bound = outside (text "aa") true

loads :
    load bound.decode_base64 bound.replay_path_beside bound.read_file bound.decode_config
      (text "proxy.json")
    ≡ ok (config (text "aa") true)
unfolding load validate auth_device auth_devices devices_require_client_cert text
loads = refl

works : IsWorking bound file (config (text "aa") true) no_rows
unfolding text
works = record {
  directory = refl;
  joined = λ path e. cc;
  made = refl;
  db = no_rows;
  opens = refl;
  executes = λ s x. refl;
  key_pair = λ on. (text "cert.pem", refl);
  authorities = λ on. (text "ca.pem", text "ca.pem", refl, refl);
}

abbrev pub nine : Readings
nine n = pos 9

start_serves_example :
    (p : Proxy bound tables tables-IsTransactional file disk names toy has_at encoded nine nine)
    × (start bound tables tables-IsTransactional file disk names toy has_at encoded nine nine
          (text "proxy.json")
          sink.files
          no_rows
        ≡ serving p)
    × IsServing bound tables tables-IsTransactional file file-IsDurable disk names toy has_at
        encoded nine nine
        (text "proxy.json")
        no_rows
        p
start_serves_example =
    start_serves bound tables tables-IsTransactional file file-IsDurable disk names toy has_at
      encoded nine nine (text "proxy.json") sink.files no_rows (config (text "aa") true) loads works

start-Sound_example :
    Sound bound tables tables-IsTransactional file file-IsDurable disk names toy has_at encoded nine
      nine
      (text "proxy.json")
      sink.files
      no_rows
      (start bound tables tables-IsTransactional file disk names toy has_at encoded nine nine
        (text "proxy.json")
        sink.files
        no_rows)
start-Sound_example =
    start-Sound bound tables tables-IsTransactional file file-IsDurable disk names toy has_at
      encoded nine nine (text "proxy.json") sink.files no_rows

message_bound_example :
    server_options (with_headroom (pos 4096))
    ≡ (if ltb (4096 + 4096) (2 ^ 63) then some (pos (4096 + 4096)) else none)
message_bound_example = message_bound 4096 (omega arith)
