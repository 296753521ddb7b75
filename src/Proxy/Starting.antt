-- ===== src/Proxy/Starting.antt =====
-- server/cmd/golem-proxy/main.go: what run serves, and what it leaves where it stops.
use mathlib.Core.Path.{subst}
use golem_harness.Base.{
  Str, ◌≡◌, ◌≢◌, refl, sym, ap, ◌∙◌, Bool, Option, none, some, [], arith, Option-cases, inl, inr,
}
use golem_harness.Errors.{Error, ok, err, Result, Result-cases}
use golem_harness.Platform.{Platform}
use golem_harness.Trajectory.{SanitizedFrame}
use golem_harness.Config.{Config, load, signature_ttl}
use golem_harness.Config.Usable.{IsUsable, load-IsUsable}
use golem_harness.Auth.Registry.{Device, lookup_device}
use golem_harness.Auth.Registry.Certs.{registry-requires, lookup-requires}
use golem_harness.Auth.Sqlite.{ReplayDb, IsTransactional}
use golem_harness.Auth.Sqlite.Opening.{ReplayFile, IsDurable, new_sqlite_replay_guard}
use golem_harness.Auth.Sqlite.Lives.{rows_of, Opened-cases, new_sqlite_replay_guard-rows}
use golem_harness.Sanitize.Redactor.{Pattern}
use golem_harness.Sanitize.Outcomes.{new_pipeline}
use golem_harness.Storage.{JsonlSink, new_jsonl_sink_with_options, close_file}
use golem_harness.Storage.Paths.{Files, Names}
use golem_harness.Proxy.Certs.{DemandsCert, auth_devices-bound, credentials_of-required}
use golem_harness.Ingest.Timed.{Readings}
use golem_harness.Proxy.{
  Outside, TlsConfig, credentials_of, options_of, Proxy, Started, serving, stopped, server_options,
  with_headroom, serve, open_guard, open_sink, load_registry, start,
}

loaded_twice : {a b : Config} → ◌≡◌ {A = Result Config} (ok a) (ok b) → a ≡ b
loaded_twice e = cc

ok_and_err : {a : Config} {b : Error} → ◌≢◌ {A = Result Config} (ok a) (err b)
ok_and_err e = cc

module _ (O : Outside) (D : ReplayDb) (T : IsTransactional D) (R : ReplayFile D) (U : IsDurable T R)
    (F : Files) (N : Names) (P : Platform) (matches : Pattern → Str → Bool)
    (marshal : SanitizedFrame → Option Str) (clock now : Readings) where
  abbrev Served : Type 0
  Served = Proxy O D T R F N P matches marshal clock now

  -- What a proxy that serves was made of.
  pub record IsServing (path : Str) (disk : R.Disk) (p : Served) : Type 0 where
    pub config : Config
    pub loaded :
        load O.decode_base64 O.replay_path_beside O.read_file O.decode_config path ≡ ok config
    pub usable : IsUsable O.decode_base64 O.replay_path_beside config
    pub sink : JsonlSink F N
    pub db : D.Db
    pub verifier :
        p.service.verifier
        ≡ some (record {
          registry = some (lookup_device usable.table);
          replay_guard = some (some db);
          max_payload_bytes = config.max_payload_bytes;
          ttl = signature_ttl config;
        })
    pub sanitizer :
        p.service.sanitizer
        ≡ some (clock, new_pipeline config.allowed_packages config.sensitive_packages)
    pub storage : p.service.storage ≡ some (now, sink)
    pub sink_closed : sink.file ≡ none
    pub max_recv_bytes : p.max_recv_bytes ≡ server_options (with_headroom config.max_payload_bytes)
    pub grpc_addr : p.grpc_addr ≡ config.grpc_addr
    pub http_addr : p.http_addr ≡ config.http_addr
    pub sink_path : sink.path ≡ config.storage_path
    pub sink_opts : sink.opts ≡ options_of config
    pub rows : T.rows db ≡ U.on_disk config.replay_path disk
    pub certs :
        (id : Str) (d : Device)
        → lookup_device usable.table id ≡ some d
        → d.client_cert_fingerprint_sha256 ≢ []
        → DemandsCert p.creds

  abbrev Begun : Type 0
  Begun = Started O D T R F N P matches marshal clock now

  -- The database at the path of the configuration, if one loads, has the rows that it had; if none
  -- does, the disk is as it was.
  pub record IsUnchanged (path : Str) (disk disk' : R.Disk) : Type 0 where
    pub rows :
        (c : Config)
        → load O.decode_base64 O.replay_path_beside O.read_file O.decode_config path ≡ ok c
        → U.on_disk c.replay_path disk' ≡ U.on_disk c.replay_path disk
    pub whole :
        (failure : Error)
        → load O.decode_base64 O.replay_path_beside O.read_file O.decode_config path ≡ err failure
        → disk' ≡ disk

  -- A proxy that serves is as IsServing says; one that stopped has changed no row and no file.
  abbrev pub Sound : Str → F.State → R.Disk → Begun → Type 0
  Sound path files disk (serving p) = IsServing path disk p
  Sound path files disk (stopped failure files' disk') =
      (files' ≡ files) × IsUnchanged path disk disk'

  untouched : (path : Str) (disk : R.Disk) → IsUnchanged path disk disk
  untouched path disk = record { rows = λ c loaded. refl; whole = λ failure e. refl }

  unchanged :
      (path : Str) (disk : R.Disk) (c : Config)
      → load O.decode_base64 O.replay_path_beside O.read_file O.decode_config path ≡ ok c
      → (disk' : R.Disk) → U.on_disk c.replay_path disk' ≡ U.on_disk c.replay_path disk
      → IsUnchanged path disk disk'
  unchanged path disk c loaded disk' h = record {
    rows = λ c' loaded'.
        subst (λ x. U.on_disk x disk' ≡ U.on_disk x disk)
          (ap (λ x. x.replay_path) (loaded_twice (sym loaded ∙ loaded'))) h;
    whole = λ failure e. absurd (ok_and_err (sym loaded ∙ e));
  }

  module _ (path : Str) (files : F.State) (disk : R.Disk) (c : Config)
      (loaded : load O.decode_base64 O.replay_path_beside O.read_file O.decode_config path ≡ ok c)
      (usable : IsUsable O.decode_base64 O.replay_path_beside c) where
    certs_of :
        (creds : Option (TlsConfig O))
        → credentials_of O usable.table c.mtls ≡ ok creds
        → (id : Str) (d : Device) → lookup_device usable.table id ≡ some d
        → d.client_cert_fingerprint_sha256 ≢ []
        → DemandsCert creds
    certs_of creds h id d found bound =
        let needs = lookup-requires usable.table id d found bound in
        let named = registry-requires usable.devices usable.table usable.registry needs in
        let configured =
          auth_devices-bound O.decode_base64 c.allowed_devices usable.devices usable.decoded
            named in
        credentials_of-required O usable.table c.mtls creds (usable.certs configured).0 needs h

    module _ (sink : JsonlSink F N) (closed : sink.file ≡ none) (kept : sink.files ≡ files)
        (sink_path : sink.path ≡ c.storage_path) (sink_opts : sink.opts ≡ options_of c) where
      serve-Sound :
          (db : D.Db)
          → T.rows db ≡ U.on_disk c.replay_path disk
          → Sound path files disk
              (serve O D T R F N P matches marshal clock now c usable.table sink db)
      unfolding serve close_file
      serve-Sound db rows = elim (Result-cases (credentials_of O usable.table c.mtls)) [
        | inr (failure, e) ↦
            rw (e, serve)
              (
                rw (closed, close_file) kept,
                unchanged path disk c loaded _ (U.close_rows c.replay_path db ∙ rows),
              )
        | inl (creds, e) ↦
            rw (e, serve)
              (record {
                config = c;
                loaded = loaded;
                usable = usable;
                sink = sink;
                db = db;
                verifier = refl;
                sanitizer = refl;
                storage = refl;
                sink_closed = closed;
                max_recv_bytes = refl;
                grpc_addr = refl;
                http_addr = refl;
                sink_path = sink_path;
                sink_opts = sink_opts;
                rows = rows;
                certs = certs_of creds e;
              })
      ]

      open_guard-Sound :
          Sound path files disk
            (open_guard O D T R F N P matches marshal clock now c usable.table sink disk)
      unfolding open_guard close_file
      open_guard-Sound =
          let rows = new_sqlite_replay_guard-rows D T R U c.replay_path disk in
          elim (Opened-cases D R (new_sqlite_replay_guard D R c.replay_path disk)) [
            | inl (failure, disk', e) ↦
                rw (e, open_guard)
                  (
                    rw (closed, close_file) kept,
                    unchanged path disk c loaded _
                        (ap (rows_of D T R U c.replay_path) (sym e) ∙ rows),
                  )
            | inr (db, e) ↦
                rw (e, open_guard)
                  (serve-Sound db (ap (rows_of D T R U c.replay_path) (sym e) ∙ rows))
          ]

    open_sink-Sound :
        Sound path files disk
          (open_sink O D T R F N P matches marshal clock now c usable.table files disk)
    unfolding open_sink new_jsonl_sink_with_options
    open_sink-Sound =
        elim (Option-cases (
          new_jsonl_sink_with_options F N (O.no_directory c.storage_path) c.storage_path
            (options_of c) files)) [
              | inl e ↦ rw (e, open_sink) (refl, untouched path disk)
              | inr (sink, e) ↦
                  rw (e, open_sink)
                    (open_guard-Sound sink (ground arith) (ground arith) (ground arith)
                      (ground arith))
            ]

  -- Where the proxy starts, it has loaded a configuration and serves what that configuration says:
  -- a verifier over the registry of its devices, with its bound on payloads, its time to live and
  -- a replay guard with the rows of the database at its path, the pipeline of its allowed and its
  -- sensitive packages, a closed sink at its path with its options, its bound on messages and its
  -- addresses; and if a device of the registry names a client certificate, the connection is TLS
  -- 1.3 and demands a verified one. Where it stops with an error, no file of the sink has changed,
  -- and if it loaded a configuration, no row of the database at its path; if it loaded none, the
  -- disk is as it was.
  pub start-Sound :
      (path : Str) (files : F.State) (disk : R.Disk)
      → Sound path files disk (start O D T R F N P matches marshal clock now path files disk)
  unfolding start load_registry
  start-Sound path files disk =
      elim (Result-cases
        (load O.decode_base64 O.replay_path_beside O.read_file O.decode_config path)) [
          | inr (failure, e) ↦ rw (e, start) (refl, untouched path disk)
          | inl (c, e) ↦
              let usable =
                load-IsUsable O.decode_base64 O.replay_path_beside O.read_file O.decode_config path
                  c e in
              rw (e, start)
                (rw (usable.decoded, start)
                  (rw (usable.registry, start) (open_sink-Sound path files disk c e usable)))
        ]
