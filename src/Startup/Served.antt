-- ===== src/Startup/Served.antt =====
-- What the manager's options promise of the two servers.
use kubernetes_images_sync_o.Base.{◌≡◌, false, none, List, [], ◌∷◌, ◌↔◌, arith, if◌then◌else◌}
use kubernetes_images_sync_o.Text.{codes}
use kubernetes_images_sync_o.Startup.Options.{
  Flags, TlsConfig, GroupVersionKind, manager_options, metrics_options, tls_opts, disable_http2,
}

-- A server applies its options to a configuration in their order.
abbrev pub configure : List (TlsConfig → TlsConfig) → TlsConfig → TlsConfig
configure [] c = c
configure (opt ∷ opts) c = configure opts (opt c)

-- Whatever the flags: unless HTTP/2 is enabled, the webhook server and the metrics server, which apply
-- their options to any configuration, offer just HTTP/1.1; if it is, the configuration stays as it is.
-- The metrics are served openly, without a provider that checks who asks, only where they are not
-- served by HTTPS either.
pub manager_options_lem :
    (client_go : List GroupVersionKind) (flags : Flags) (c : TlsConfig)
    → let o = manager_options client_go flags in
      let protos = if flags.enable_http2 then c.next_protos else codes "http/1.1" ∷ [] in
      ((configure o.webhook_tls_opts c).next_protos ≡ protos)
      × ((configure o.metrics.tls_opts c).next_protos ≡ protos)
      × ((o.metrics.filter_provider ≡ none) ↔ (o.metrics.secure_serving ≡ false))
unfolding manager_options metrics_options tls_opts disable_http2
manager_options_lem client_go flags c = ground arith
