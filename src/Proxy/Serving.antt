-- ===== src/Proxy/Serving.antt =====
-- server/cmd/golem-proxy/main.go: with a valid configuration, and files that can be opened, the
-- proxy serves.
use mathlib.Core.Path.{subst}
use golem_harness.Base.{
  Str, ◌≡◌, ◌≢◌, refl, sym, ◌∙◌, true, false, Bool, Option, some, [], arith, Bool-cases,
  Option-cases, inl, inr,
}
use golem_harness.Errors.{ok, Result-cases}
use golem_harness.Platform.{Platform}
use golem_harness.Trajectory.{SanitizedFrame}
use golem_harness.Config.{Config, load}
use golem_harness.Config.Usable.{IsUsable, load-IsUsable}
use golem_harness.Base.Dict.{Dict}
use golem_harness.Auth.Registry.{Device}
use golem_harness.Auth.Sqlite.{ReplayDb, IsTransactional}
use golem_harness.Auth.Sqlite.Opening.{
  ReplayFile, IsDurable, Statement, journal_wal, busy_timeout, create_tables, guard, exec_then,
  new_sqlite_replay_guard,
}
use golem_harness.Sanitize.Redactor.{Pattern}
use golem_harness.Storage.{JsonlSink, new_jsonl_sink_with_options}
use golem_harness.Storage.Paths.{Files, Names}
use golem_harness.Ingest.Timed.{Readings}
use golem_harness.Proxy.Starting.{IsServing, Sound, start-Sound}
use golem_harness.Proxy.{
  Outside, TlsConfig, transport_credentials, credentials_of, options_of, Proxy, proxy_of, serving,
  serve, open_guard, open_sink, load_registry, start,
}

-- The outside lets the proxy start: directories can be made, the database opens and takes every
-- statement, and the files of mutual TLS, where it is enabled, hold what they should.
pub record IsWorking (O : Outside) {D : ReplayDb} (R : ReplayFile D) (c : Config) (disk : R.Disk)
    : Type 0 where
  pub directory : O.no_directory c.storage_path ≡ false
  -- filepath.Join of a directory and a file is not empty
  pub joined : (path : Str) → O.replay_path_beside path ≢ []
  pub made : (R.mkdir_all c.replay_path disk).0 ≡ false
  pub db : D.Db
  pub opens : R.open_db c.replay_path (R.mkdir_all c.replay_path disk).1 ≡ some db
  pub executes : (s : Statement) (x : D.Db) → (R.exec s x).0 ≡ false
  pub key_pair :
      c.mtls.enabled ≡ true
      → (cert : O.Certificate) × (O.load_x509_key_pair c.mtls.cert_file c.mtls.key_file ≡ some cert)
  pub authorities :
      c.mtls.enabled ≡ true
      → (pem : Str) × (pool : O.CertPool) × (O.read_file c.mtls.client_ca_file ≡ some pem)
        × (O.append_certs_from_pem pem ≡ some pool)

module _ (O : Outside) (D : ReplayDb) (R : ReplayFile D) (c : Config) (disk : R.Disk)
    (w : IsWorking O R c disk) (usable : IsUsable O.decode_base64 O.replay_path_beside c) where
  replay_named : c.replay_path ≢ []
  replay_named = elim usable.replay [
    | inl named ↦ named
    | inr beside ↦ λ e. absurd (w.joined c.storage_path (sym beside ∙ e))
  ]

  guard_opens : (db : D.Db) × (new_sqlite_replay_guard D R c.replay_path disk ≡ guard db)
  unfolding new_sqlite_replay_guard exec_then
  guard_opens =
      let first = (R.exec journal_wal w.db).1 in
      let second = (R.exec busy_timeout first).1 in
      (
        (R.exec create_tables second).1,
        ground (
          arith,
          w.made,
          w.opens,
          replay_named,
          w.executes journal_wal w.db,
          w.executes busy_timeout first,
          w.executes create_tables second,
        ),
      )

  creds_found :
      (registry : Dict Device)
      → (creds : Option (TlsConfig O)) × (credentials_of O registry c.mtls ≡ ok creds)
  unfolding credentials_of transport_credentials
  creds_found registry = elim (Result-cases (credentials_of O registry c.mtls)) [
    | inl found ↦ found
    | inr (failure, e) ↦ absurd (elim (Bool-cases c.mtls.enabled) [
      | inr off ↦ ground arith
      | inl on ↦
          let (cert, found) = w.key_pair on in
          let (pem, pool, read, parsed) = w.authorities on in ground arith
    ])
  ]

  module _ (F : Files) (N : Names) (files : F.State) where
    sink_made :
        (sink : JsonlSink F N) × (new_jsonl_sink_with_options F N
            (O.no_directory c.storage_path)
            c.storage_path
            (options_of c)
            files
          ≡ some sink)
    unfolding new_jsonl_sink_with_options
    sink_made =
        elim (Option-cases (
          new_jsonl_sink_with_options F N (O.no_directory c.storage_path) c.storage_path
            (options_of c) files)) [
              | inl e ↦ absurd (ground (arith, w.directory, usable.storage, usable.rotation))
              | inr found ↦ found
            ]

    module _ (T : IsTransactional D) (P : Platform) (matches : Pattern → Str → Bool)
        (marshal : SanitizedFrame → Option Str) (clock now : Readings) where
      loaded_serves :
          (path : Str)
          → load O.decode_base64 O.replay_path_beside O.read_file O.decode_config path ≡ ok c
          → (p : Proxy O D T R F N P matches marshal clock now) × (start O D T R F N P matches
                marshal clock now path files disk
              ≡ serving p)
      unfolding start load_registry open_sink open_guard serve
      loaded_serves path loaded =
          let (sink, made) = sink_made in
          let (db, opened) = guard_opens in
          let (creds, has) = creds_found usable.table in
          (
            proxy_of O D T R F N P matches marshal clock now c usable.table sink db creds,
            rw (loaded, start)
                (rw (usable.decoded, start)
                  (rw (usable.registry, start)
                    (rw (made, open_sink) (rw (opened, open_guard) (rw (has, serve) refl))))),
          )

-- With a configuration that loads, the proxy serves, and serves what a configuration that it has
-- loaded says, if the directories can be made, the path of the replay guard beside a sink is not
-- empty, the database opens at the replay path and takes every statement, and the files of mutual
-- TLS, where it is enabled, hold a key pair and certificates.
pub start_serves :
    (O : Outside) (D : ReplayDb) (T : IsTransactional D) (R : ReplayFile D) (U : IsDurable T R)
    (F : Files) (N : Names) (P : Platform) (matches : Pattern → Str → Bool)
    (marshal : SanitizedFrame → Option Str) (clock now : Readings) (path : Str) (files : F.State)
    (disk : R.Disk) (c : Config)
    → load O.decode_base64 O.replay_path_beside O.read_file O.decode_config path ≡ ok c
    → IsWorking O R c disk
    → (p : Proxy O D T R F N P matches marshal clock now) × (start O D T R F N P matches marshal
          clock now path files disk
        ≡ serving p)
      × IsServing O D T R U F N P matches marshal clock now path disk p
start_serves O D T R U F N P matches marshal clock now path files disk c loaded w =
    let usable =
      load-IsUsable O.decode_base64 O.replay_path_beside O.read_file O.decode_config path c
        loaded in
    let (p, e) =
      loaded_serves O D R c disk w usable F N files T P matches marshal clock now path loaded in
    (
      p,
      e,
      subst (Sound O D T R U F N P matches marshal clock now path files disk) e
          (start-Sound O D T R U F N P matches marshal clock now path files disk),
    )
