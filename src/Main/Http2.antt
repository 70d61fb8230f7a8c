-- ===== src/Main/Http2.antt =====
-- What the flags make of the two servers.
use obs_operator.Base.{
  ◌≡◌, refl, Bool, true, false, List, [], ◌∷◌, if◌then◌else◌, Bool-cases, inl, inr, ◌==◌, string_eq,
}
use obs_operator.Main.Options.{
  Flags, TlsConfig, ManagerOptions, disable_http2, tls_options, webhook_options, metrics_options,
  manager_options,
}

-- The options one after the other, as the servers apply them to their configuration.
abbrev pub configure : List (TlsConfig → TlsConfig) → TlsConfig → TlsConfig
configure [] c = c
configure (o ∷ os) c = configure os (o c)

-- The protocols of a server that starts from the configuration `c`.
abbrev served : Flags → TlsConfig → TlsConfig
served f c = if f.enable_http2 then c else record c { next_protos = "http/1.1" ∷ [] }

-- Both servers speak nothing but HTTP/1.1 unless the flag lets HTTP/2 in, and what the metrics
-- server gives over TLS it gives to the authorized.
pub record IsHardened (f : Flags) (o : ManagerOptions) : Type 0 where
  pub webhook : (c : TlsConfig) → configure o.webhook_server.tls_opts c ≡ served f c
  pub metrics : (c : TlsConfig) → configure o.metrics.tls_opts c ≡ served f c
  pub filtered : o.metrics.filters_access ≡ o.metrics.secure_serving

configure_tls : (f : Flags) (c : TlsConfig) → configure (tls_options f) c ≡ served f c
unfolding tls_options disable_http2
configure_tls f c = elim (Bool-cases f.enable_http2) [ inl e ↦ rw e | inr e ↦ rw e ]

tls_opts-webhook : (f : Flags) → (webhook_options f).tls_opts ≡ tls_options f
unfolding webhook_options
tls_opts-webhook f = elim (Bool-cases (f.webhook_cert_path == "")) [ inl e ↦ rw e | inr e ↦ rw e ]

tls_opts-metrics : (f : Flags) → (metrics_options f).tls_opts ≡ tls_options f
unfolding metrics_options
tls_opts-metrics f = elim (Bool-cases (f.metrics_cert_path == "")) [ inl e ↦ rw e | inr e ↦ rw e ]

filtered_when_secure : (b : Bool) → (if b then true else false) ≡ b
filtered_when_secure true = refl
filtered_when_secure false = refl

filters-metrics :
    (f : Flags) → (metrics_options f).filters_access ≡ (metrics_options f).secure_serving
unfolding metrics_options
filters-metrics f = elim (Bool-cases (f.metrics_cert_path == "")) [
  | inl e ↦ rw e (filtered_when_secure f.secure_metrics)
  | inr e ↦ rw e (filtered_when_secure f.secure_metrics)
]

-- Whatever the other flags are, with certificates or without, the options that `main` hands to the
-- manager leave both servers with HTTP/1.1 alone exactly unless `--enable-http2` is set, and the
-- metrics server filters access exactly if it serves over TLS.
pub manager_options-IsHardened : (f : Flags) → IsHardened f (manager_options f)
unfolding manager_options
manager_options-IsHardened f = record {
  webhook = λ c. rw (tls_opts-webhook f, configure_tls f c) refl;
  metrics = λ c. rw (tls_opts-metrics f, configure_tls f c) refl;
  filtered = filters-metrics f;
}
