-- ===== src/Tests/ProxyLivesTests.antt =====
-- Two lives of the proxy: one that accepts the test envelope and is cut off, and one that does not
-- start.
use golem_harness.Base.{◌+◌, ◌≤◌, text, str_eq, ◌≡◌, ◌≢◌, refl, sym, ap, false, none, []}
use golem_harness.Base.Dict.{lookup, insert}
use golem_harness.Base.Int.{◌+ℤ◌, ◌-ℤ◌}
use golem_harness.Clock.{sub}
use golem_harness.Decimal.{decimal, digit_loop}
use golem_harness.Errors.{plain, Error, Result, ok, err}
use golem_harness.Platform.{hex_encode}
use golem_harness.Signing.{signature_alg_ed25519, hash_payload, canonical_bytes, layout}
use golem_harness.Config.{
  Config, load, validate, auth_device, auth_devices, devices_require_client_cert, signature_ttl,
  storage_fsync_enabled,
}
use golem_harness.Auth.{
  verify, authenticate, check_fields, check_time, check_hash, check_key_id, bind_client_cert,
  check_signature,
}
use golem_harness.Auth.Registry.{new_static_device_registry, lookup_device}
use golem_harness.Auth.Sqlite.{check_and_record}
use golem_harness.Auth.Sqlite.Opening.{new_sqlite_replay_guard, exec_then}
use golem_harness.Ingest.Calls.{peer_certificate_fingerprint}
use golem_harness.Ingest.Private.{or_frame}
use golem_harness.Ingest.Concurrent.{start, later, pass, finish}
use golem_harness.Ingest.Concurrent.Once.{times, times_accepted}
use golem_harness.Strings
use golem_harness.Strings.{trim_space}
use golem_harness.Sanitize.Redactor.{
  node, sanitize_attributes, sanitize_text, has_regex_pii, match_loop,
}
use golem_harness.Sanitize.Process.{process}
use golem_harness.Sanitize.Outcomes.{
  with_defaults, new_pipeline, add_sensitive, add_allowed, default_sensitive_packages, accepted_as,
  default_version, sanitized_frame,
}
use golem_harness.Ingest.{decode, sanitize, decide, store}
use golem_harness.Ingest.Calls.{respond}
use golem_harness.Ingest.Bind.{bind_envelope_to_frame}
use golem_harness.Storage.Paths.{validate_sanitized_frame}
use golem_harness.Storage.{
  JsonlSink, new_jsonl_sink_with_options, write_sanitized_frame, ensure_writer, rotate_open,
  rotate_found, reopen, open_file, append_line,
}
use golem_harness.Proxy.{
  Outside, Proxy, proxy_of, options_of, serving, credentials_of, open_guard, open_sink,
  load_registry,
}
use golem_harness.Proxy
use golem_harness.Proxy.Lives.{World, Continues, Replays, rest, stop, accepted_once_ever}
use golem_harness.Proxy.Lives.{serve}
use golem_harness.Tests.Toy.{toy}
use golem_harness.Tests.Envelopes.{signed, table}
use golem_harness.Tests.Frames.{has_at, zero_frame}
use golem_harness.Tests.GuardTests.{tables, tables-IsTransactional, no_rows, Holds-no_rows}
use golem_harness.Tests.LivesTests.{file, file-IsDurable}
use golem_harness.Tests.StorageTests.{disk, names, encoded}
use golem_harness.Tests.IngestTests.{unmarshal, call}
use golem_harness.Tests.ProxyTests.{config, outside, nine}

abbrev open' : Outside
open' = outside [] false

abbrev frames : JsonlSink disk names
frames = record {
  path = text "frames.jsonl";
  opts = options_of (config [] false);
  file = none;
  size = 0;
  day = [];
  files = [];
}

abbrev proxy :
    Proxy open' tables tables-IsTransactional file disk names toy has_at encoded nine nine
proxy =
    proxy_of open' tables tables-IsTransactional file disk names toy has_at encoded nine nine
      (config [] false) table frames no_rows none

proxy_serves :
    Proxy.start open' tables tables-IsTransactional file disk names toy has_at encoded nine nine
      (text "proxy.json")
      []
      no_rows
    ≡ serving proxy
unfolding Proxy.start load validate auth_device auth_devices devices_require_client_cert text
    load_registry new_static_device_registry insert open_sink new_jsonl_sink_with_options open_guard
    new_sqlite_replay_guard exec_then Proxy.serve credentials_of
proxy_serves = refl

loaded : {a b : Config} → ◌≡◌ {A = Result Config} (ok a) (ok b) → a ≡ b
loaded e = cc

failed_load : {a : Error} {b : Config} → ◌≢◌ {A = Result Config} (err a) (ok b)
failed_load e = cc

replays :
    Replays tables tables-IsTransactional file disk names toy has_at encoded unmarshal
      (or_frame zero_frame)
      (text "replay.db")
      open'
      (text "proxy.json")
unfolding load validate auth_device auth_devices devices_require_client_cert text
replays c e = ap (λ x. x.replay_path) (sym (loaded e))

abbrev fresh :
    World tables tables-IsTransactional file disk names toy has_at encoded unmarshal
      (or_frame zero_frame)
      (text "replay.db")
fresh = record { files = []; disk = no_rows; answers = []; log = [] }

-- The first life accepts the frame and is cut off; the second has no configuration file.
lives :
    (u : World tables tables-IsTransactional file disk names toy has_at encoded unmarshal
      (or_frame zero_frame)
      (text "replay.db"))
    × Continues tables tables-IsTransactional file disk names toy has_at encoded unmarshal
        (or_frame zero_frame)
        (text "replay.db")
        fresh
        u
    × (times_accepted (text "d1") (text "f1") u.answers ≡ 1)
unfolding verify authenticate check_fields text str_eq signature_alg_ed25519 check_time ◌+ℤ◌ sub
    ◌-ℤ◌ check_hash hash_payload hex_encode lookup_device lookup check_key_id bind_client_cert
    check_signature canonical_bytes layout decimal digit_loop check_and_record signature_ttl
    peer_certificate_fingerprint Proxy.start load decode bind_envelope_to_frame sanitize decide
    store respond process trim_space with_defaults new_pipeline add_sensitive insert
    default_sensitive_packages Strings.contains add_allowed node sanitize_attributes sanitize_text
    has_regex_pii match_loop accepted_as write_sanitized_frame ensure_writer rotate_open
    rotate_found reopen open_file append_line validate_sanitized_frame default_version
    sanitized_frame storage_fsync_enabled times_accepted
lives = (
  _,
  stop open' nine nine [] (plain (text "config path is required")) _ _
      (serve open' nine nine (text "proxy.json") proxy _ _ _ _ _ false rest replays proxy_serves
        (later (later start (pass call signed _ refl refl))
          (finish [] [] signed _ _ refl refl refl))
        refl refl refl)
      (λ c e. absurd (failed_load e)) refl,
  refl,
)

accepted_once_ever_example :
    times_accepted (text "d1") (text "f1") lives.0.answers + times (text "d1") (text "f1") [] ≤ 1
unfolding file-IsDurable
accepted_once_ever_example =
    accepted_once_ever tables tables-IsTransactional file disk names toy has_at encoded unmarshal
      (or_frame zero_frame) (text "replay.db") file-IsDurable fresh lives.0 (text "d1") (text "f1")
      Holds-no_rows tt refl lives.1
