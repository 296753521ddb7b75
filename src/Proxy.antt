-- ===== src/Proxy.antt =====
-- server/cmd/golem-proxy/main.go: what run puts together, and how it ends. The files, the database,
-- TLS and the listeners are parameters.
pub mod Certs
pub mod Starting
pub mod Serving
pub mod Lives
pub mod Bounds
use golem_harness.Base.{
  ℕ, ◌+◌, Str, text, Bool, true, Option, none, some, List, [], ◌∷◌, if◌then◌else◌,
}
use golem_harness.Base.Int.{ℤ, pos, negsuc, ◌+ℤ◌, ltb_ℤ}
use golem_harness.Base.Dict.{Dict}
use golem_harness.Errors.{Error, plain, Result, ok, err}
use golem_harness.Platform.{Platform}
use golem_harness.Trajectory.{SanitizedFrame}
use golem_harness.Config.{
  Config, MtlsConfig, auth_devices, signature_ttl, storage_fsync_enabled, load, wrap_int64,
}
use golem_harness.Auth.Registry.{
  Device, new_static_device_registry, lookup_device, requires_client_cert,
}
use golem_harness.Auth.Sqlite.{ReplayDb, IsTransactional}
use golem_harness.Auth.Sqlite.Implements.{sqlite_guard}
use golem_harness.Auth.Sqlite.Opening.{ReplayFile, guard, refused, new_sqlite_replay_guard}
use golem_harness.Sanitize.Redactor.{Pattern}
use golem_harness.Sanitize.Outcomes.{new_pipeline}
use golem_harness.Ingest.{Service}
use golem_harness.Ingest.Timed.{Readings, timed_pipeline, timed_sink}
use golem_harness.Storage.{JsonlSink, new_jsonl_sink_with_options, close_file}
use golem_harness.Storage.Paths.{Files, Names, JsonlOptions}

-- What run and the packages that it sets up read of the outside; `none` is an error.
pub record Outside : Type 1 where
  -- os.ReadFile
  pub read_file : Str → Option Str
  -- json.Unmarshal into a Config
  pub decode_config : Str → Option Config
  pub decode_base64 : Str → Option Str
  -- filepath.Join(filepath.Dir(storage_path), …)
  pub replay_path_beside : Str → Str
  -- os.MkdirAll of the directory of a sink; whether it failed
  pub no_directory : Str → Bool
  pub Certificate : Type 0
  pub CertPool : Type 0
  -- tls.LoadX509KeyPair
  pub load_x509_key_pair : Str → Str → Option Certificate
  -- AppendCertsFromPEM on a new pool
  pub append_certs_from_pem : Str → Option CertPool

-- tls.ClientAuthType, as far as it is used
pub data ClientAuth : Type 0 where
  verify_client_cert_if_given require_and_verify_client_cert : ClientAuth

-- tls.VersionTLS13
abbrev pub version_tls13 : ℕ
version_tls13 = 772

-- type tls.Config, as far as it is set
pub record TlsConfig (O : Outside) : Type 0 where
  pub min_version : ℕ
  pub certificate : O.Certificate
  pub client_cas : O.CertPool
  pub client_auth : ClientAuth

-- transportCredentials. The error texts leave out the cause.
unfoldable pub transport_credentials : (O : Outside) → MtlsConfig → Result (TlsConfig O)
transport_credentials O cfg = elim (O.load_x509_key_pair cfg.cert_file cfg.key_file) [
  | none ↦ err (plain (text "load server certificate"))
  | some cert ↦ elim (O.read_file cfg.client_ca_file) [
    | none ↦ err (plain (text "read client ca"))
    | some client_ca ↦ elim (O.append_certs_from_pem client_ca) [
      | none ↦ err (plain (text "client ca file did not contain a PEM certificate"))
      | some pool ↦ ok (record {
        min_version = version_tls13;
        certificate = cert;
        client_cas = pool;
        client_auth =
            if cfg.require_client
            then require_and_verify_client_cert
            else verify_client_cert_if_given;
      })
    ]
  ]
]

-- mtls.RequireClient = true where a device needs it
abbrev pub required_by : Dict Device → MtlsConfig → MtlsConfig
required_by registry mtls =
    if requires_client_cert registry then record mtls { require_client = true } else mtls

-- The option of the server: none without mutual TLS.
unfoldable pub credentials_of :
    (O : Outside) → Dict Device → MtlsConfig → Result (Option (TlsConfig O))
credentials_of O registry mtls =
    if mtls.enabled
    then elim (transport_credentials O (required_by registry mtls)) [
      | err failure ↦ err failure
      | ok creds ↦ ok (some creds)
    ]
    else ok none

-- ServerOptions: the bound on a message, if there is one
unfoldable pub server_options : ℤ → Option ℤ
server_options max_recv_bytes = if ltb_ℤ (pos 0) max_recv_bytes then some max_recv_bytes else none

-- cfg.MaxPayloadBytes + 4096, an int
abbrev pub with_headroom : ℤ → ℤ
with_headroom (pos n) = wrap_int64 (n + 4096)
with_headroom (negsuc n) = negsuc n +ℤ pos 4096

-- healthHandler: the body that goes with the status 200, for each pattern of the mux
unfoldable pub health_handler : Dict Str
unfolding text
health_handler = (text "/healthz", text "ok\n") ∷ (text "/readyz", text "ready\n") ∷ []

-- What comes first on the channels of the final select: a signal, or the end of a server, with the
-- error `none`, grpc.ErrServerStopped, http.ErrServerClosed or another.
pub data ServeEnd : Type 0 where
  no_error server_stopped server_closed : ServeEnd
  serve_error : Str → ServeEnd

pub data Event : Type 0 where
  signal : Event
  ended : ServeEnd → Event

-- What run does to its servers.
pub data Action : Type 0 where
  graceful_stop shutdown_http stop_grpc close_http : Action

-- The final select: the error that run returns, over the answer of Shutdown, and its actions.
unfoldable pub settle : Option Str → Event → Option Str × List Action
settle shutdown signal = (shutdown, graceful_stop ∷ shutdown_http ∷ [])
settle shutdown (ended no_error) = (none, [])
settle shutdown (ended server_stopped) = (none, [])
settle shutdown (ended server_closed) = (none, [])
settle shutdown (ended (serve_error what)) = (some what, stop_grpc ∷ close_http ∷ [])

-- The options of the sink.
abbrev pub options_of : Config → JsonlOptions
options_of c = record {
  max_bytes = c.storage_rotate_max_bytes;
  rotate_daily = c.storage_rotate_daily;
  sync = storage_fsync_enabled c;
}

module _ (O : Outside) (D : ReplayDb) (T : IsTransactional D) (R : ReplayFile D) (F : Files)
    (N : Names) (P : Platform) (matches : Pattern → Str → Bool)
    (marshal : SanitizedFrame → Option Str) (clock now : Readings) where
  -- The service of the proxy; the readings of its pipeline's and its sink's clocks go on with it.
  abbrev pub ProxyService : Type 0
  ProxyService = Service (sqlite_guard D T) (timed_pipeline matches P) (timed_sink F N marshal)

  -- What run serves.
  pub record Proxy : Type 0 where
    pub service : ProxyService
    pub max_recv_bytes : Option ℤ
    pub creds : Option (TlsConfig O)
    pub grpc_addr : Str
    pub http_addr : Str
    pub health : Dict Str

  -- A proxy that serves, or the error that run returns, after the deferred calls of Close.
  pub data Started : Type 0 where
    serving : Proxy → Started
    stopped : Error → F.State → R.Disk → Started

  abbrev pub service_of : Config → Dict Device → JsonlSink F N → D.Db → ProxyService
  service_of c registry sink db = record {
    verifier = some (record {
      registry = some (lookup_device registry);
      replay_guard = some (some db);
      max_payload_bytes = c.max_payload_bytes;
      ttl = signature_ttl c;
    });
    sanitizer = some (clock, new_pipeline c.allowed_packages c.sensitive_packages);
    storage = some (now, sink);
    log = [];
  }

  abbrev pub proxy_of : Config → Dict Device → JsonlSink F N → D.Db → Option (TlsConfig O) → Proxy
  proxy_of c registry sink db creds = record {
    service = service_of c registry sink db;
    max_recv_bytes = server_options (with_headroom c.max_payload_bytes);
    creds = creds;
    grpc_addr = c.grpc_addr;
    http_addr = c.http_addr;
    health = health_handler;
  }

  -- What follows the replay guard.
  unfoldable pub serve : Config → Dict Device → JsonlSink F N → D.Db → Started
  serve c registry sink db = elim (credentials_of O registry c.mtls) [
    | err failure ↦ stopped failure (close_file F N sink).1.files (R.close_db c.replay_path db).1
    | ok creds ↦ serving (proxy_of c registry sink db creds)
  ]

  unfoldable pub open_guard : Config → Dict Device → JsonlSink F N → R.Disk → Started
  open_guard c registry sink disk = elim (new_sqlite_replay_guard D R c.replay_path disk) [
    | refused failure disk' ↦ stopped failure (close_file F N sink).1.files disk'
    | guard db ↦ serve c registry sink db
  ]

  -- The error of the sink is known only as an error.
  unfoldable pub open_sink : Config → Dict Device → F.State → R.Disk → Started
  open_sink c registry files disk =
      elim (new_jsonl_sink_with_options F N (O.no_directory c.storage_path) c.storage_path
        (options_of c) files) [
          | none ↦ stopped (plain (text "storage sink")) files disk
          | some sink ↦ open_guard c registry sink disk
        ]

  unfoldable pub load_registry : Config → Result (Dict Device)
  load_registry c = elim (auth_devices O.decode_base64 c.allowed_devices) [
    | err failure ↦ err failure
    | ok devices ↦ new_static_device_registry devices
  ]

  -- run, up to the start of the listeners
  unfoldable pub start : Str → F.State → R.Disk → Started
  start path files disk =
      elim (load O.decode_base64 O.replay_path_beside O.read_file O.decode_config path) [
        | err failure ↦ stopped failure files disk
        | ok c ↦ elim (load_registry c) [
          | err failure ↦ stopped failure files disk
          | ok registry ↦ open_sink c registry files disk
        ]
      ]
