-- ===== src/Main/Options.antt =====
-- The flags of cmd/main.go with their defaults, and the options of the servers and of the manager
-- that `main` makes of them. Of a `tls.Config` only `NextProtos` is read or written.
use obs_operator.Base.{String, ◌==◌, string_eq, Bool, true, false, List, [], ◌∷◌, if◌then◌else◌}

pub record Flags : Type 0 where
  pub metrics_addr : String
  pub metrics_cert_path : String
  pub metrics_cert_name : String
  pub metrics_cert_key : String
  pub webhook_cert_path : String
  pub webhook_cert_name : String
  pub webhook_cert_key : String
  pub enable_leader_election : Bool
  pub probe_addr : String
  pub secure_metrics : Bool
  pub enable_http2 : Bool

-- What the flags are when the command line sets none of them.
abbrev pub default_flags : Flags
default_flags = record {
  metrics_addr = "0";
  metrics_cert_path = "";
  metrics_cert_name = "tls.crt";
  metrics_cert_key = "tls.key";
  webhook_cert_path = "";
  webhook_cert_name = "tls.crt";
  webhook_cert_key = "tls.key";
  enable_leader_election = false;
  probe_addr = ":8081";
  secure_metrics = true;
  enable_http2 = false;
}

-- `tls.Config`.
pub record TlsConfig : Type 0 where
  pub next_protos : List String

-- `webhook.Options` as far as `main` sets it; what is not set is "".
pub record WebhookOptions : Type 0 where
  pub tls_opts : List (TlsConfig → TlsConfig)
  pub cert_dir : String
  pub cert_name : String
  pub key_name : String

-- `metricsserver.Options`; the filter is `filters.WithAuthenticationAndAuthorization` or nil.
pub record MetricsOptions : Type 0 where
  pub bind_address : String
  pub secure_serving : Bool
  pub tls_opts : List (TlsConfig → TlsConfig)
  pub filters_access : Bool
  pub cert_dir : String
  pub cert_name : String
  pub key_name : String

-- The kinds of objects that the operator reads and watches.
pub data ObjectKind : Type 0 where
  bucket_kind provider_config_kind secret_kind : ObjectKind

-- `ctrl.Options`; `uncached` is `Client.Cache.DisableFor`.
pub record ManagerOptions : Type 0 where
  pub metrics : MetricsOptions
  pub webhook_server : WebhookOptions
  pub health_probe_bind_address : String
  pub leader_election : Bool
  pub leader_election_id : String
  pub uncached : List ObjectKind

unfoldable pub disable_http2 : TlsConfig → TlsConfig
disable_http2 c = record c { next_protos = "http/1.1" ∷ [] }

unfoldable pub tls_options : Flags → List (TlsConfig → TlsConfig)
tls_options f = if f.enable_http2 then [] else disable_http2 ∷ []

unfoldable pub webhook_options : Flags → WebhookOptions
unfolding string_eq tls_options
webhook_options f = if f.webhook_cert_path == "" then o else with_certs
  where
    o : WebhookOptions
    o = record { tls_opts = tls_options f; cert_dir = ""; cert_name = ""; key_name = "" }

    with_certs : WebhookOptions
    with_certs = record o {
      cert_dir = f.webhook_cert_path;
      cert_name = f.webhook_cert_name;
      key_name = f.webhook_cert_key;
    }

unfoldable pub metrics_options : Flags → MetricsOptions
unfolding string_eq tls_options
metrics_options f = if f.metrics_cert_path == "" then o else with_certs
  where
    o : MetricsOptions
    o = record {
      bind_address = f.metrics_addr;
      secure_serving = f.secure_metrics;
      tls_opts = tls_options f;
      filters_access = if f.secure_metrics then true else false;
      cert_dir = "";
      cert_name = "";
      key_name = "";
    }

    with_certs : MetricsOptions
    with_certs = record o {
      cert_dir = f.metrics_cert_path;
      cert_name = f.metrics_cert_name;
      key_name = f.metrics_cert_key;
    }

unfoldable pub manager_options : Flags → ManagerOptions
unfolding webhook_options metrics_options
manager_options f = record {
  metrics = metrics_options f;
  webhook_server = webhook_options f;
  health_probe_bind_address = f.probe_addr;
  leader_election = f.enable_leader_election;
  leader_election_id = "f83cfc51.wilaris.de";
  uncached = secret_kind ∷ [];
}
