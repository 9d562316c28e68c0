-- ===== src/Startup/Options.antt =====
-- cmd/main.go: the flags, the scheme, and the options of the manager and its servers.
use kubernetes_images_sync_o.Base.{
  Bool, true, false, Option, none, some, List, [], ◌∷◌, ◌++◌, if◌then◌else◌,
}
use kubernetes_images_sync_o.Text.{Text, codes}

-- The variables that `flag.Parse` stores into.
pub record Flags : Type 0 where
  pub metrics_addr : Text
  pub probe_addr : Text
  pub enable_leader_election : Bool
  pub secure_metrics : Bool
  pub enable_http2 : Bool

-- What they hold where the command line sets none of them.
abbrev pub default_flags : Flags
default_flags = record {
  metrics_addr = codes "0";
  probe_addr = codes ":8081";
  enable_leader_election = false;
  secure_metrics = true;
  enable_http2 = false;
}

-- `tls.Config`, of which only `NextProtos` is touched
pub record TlsConfig : Type 0 where
  pub next_protos : List Text

unfoldable pub disable_http2 : TlsConfig → TlsConfig
disable_http2 c = record c { next_protos = codes "http/1.1" ∷ [] }

unfoldable pub tls_opts : Bool → List (TlsConfig → TlsConfig)
tls_opts enable_http2 = if enable_http2 then [] else disable_http2 ∷ []

-- `filters.WithAuthenticationAndAuthorization`, the one provider that the code uses
pub data FilterProvider : Type 0 where
  with_authentication_and_authorization : FilterProvider

-- `metricsserver.Options`
pub record MetricsOptions : Type 0 where
  pub bind_address : Text
  pub secure_serving : Bool
  pub tls_opts : List (TlsConfig → TlsConfig)
  pub filter_provider : Option FilterProvider

unfoldable pub metrics_options : Flags → MetricsOptions
unfolding tls_opts
metrics_options flags = record {
  bind_address = flags.metrics_addr;
  secure_serving = flags.secure_metrics;
  tls_opts = tls_opts flags.enable_http2;
  filter_provider =
      if flags.secure_metrics then some with_authentication_and_authorization else none;
}

pub record GroupVersion : Type 0 where
  pub group : Text
  pub version : Text

pub record GroupVersionKind : Type 0 where
  pub group_version : GroupVersion
  pub kind : Text

abbrev pub group_version : GroupVersion
group_version = record { group = codes "raczylo.com"; version = codes "v1" }

-- A kind of the group of the custom resources.
abbrev pub custom : Text → GroupVersionKind
custom kind = record { group_version = group_version; kind = kind }

abbrev pub cluster_image_kind : GroupVersionKind
cluster_image_kind = custom (codes "ClusterImage")

abbrev pub cluster_image_export_kind : GroupVersionKind
cluster_image_export_kind = custom (codes "ClusterImageExport")

abbrev pub job_kind : GroupVersionKind
job_kind = record {
  group_version = record { group = codes "batch"; version = codes "v1" };
  kind = codes "Job";
}

-- What the two `init` functions of the package register.
abbrev pub cluster_image_kinds : List GroupVersionKind
cluster_image_kinds = cluster_image_kind ∷ custom (codes "ClusterImageList") ∷ []

abbrev pub cluster_image_export_kinds : List GroupVersionKind
cluster_image_export_kinds =
    cluster_image_export_kind ∷ custom (codes "ClusterImageExportList") ∷ []

-- The scheme of `main`: the kinds of client-go, then the package's.
unfoldable pub scheme : List GroupVersionKind → List GroupVersionKind
scheme client_go = client_go ++ (cluster_image_kinds ++ cluster_image_export_kinds)

-- `ctrl.Options`; of the webhook server its `TLSOpts`
pub record ManagerOptions : Type 0 where
  pub scheme : List GroupVersionKind
  pub metrics : MetricsOptions
  pub webhook_tls_opts : List (TlsConfig → TlsConfig)
  pub health_probe_bind_address : Text
  pub leader_election : Bool
  pub leader_election_id : Text

unfoldable pub manager_options : List GroupVersionKind → Flags → ManagerOptions
unfolding tls_opts metrics_options scheme
manager_options client_go flags = record {
  scheme = scheme client_go;
  metrics = metrics_options flags;
  webhook_tls_opts = tls_opts flags.enable_http2;
  health_probe_bind_address = flags.probe_addr;
  leader_election = flags.enable_leader_election;
  leader_election_id = codes "97ba1beb.raczylo.com";
}
