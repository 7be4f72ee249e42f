-- ===== src/Client/Endpoint.antt =====
-- The endpoints of client.go: `ResolveCHEndpoint` and `formatEndpoint`. A `TransportMode` is a text.
-- The formatting and scanning of a decimal number, `fmt`'s `%d`, is the parameter `IntFormat`.
pub mod Targets
use angzarr_client_go.Prelude.{
  String, ◌⧺◌, Option, none, some, ◌||◌, str_eq, if◌then◌else◌, has_prefix,
}
use angzarr_client_go.Os.{Environment, getenv, or_default}
use angzarr_client_go.Helpers.Editions.{ℤ, pos}

pub record IntFormat : Type 0 where
  -- `fmt.Sscanf(s, "%d", &n)`: none where it does not return one item and no error.
  pub scan : String → Option ℤ
  -- `fmt.Sprintf("%d", n)`.
  pub print : ℤ → String

-- `TransportStandalone`.
abbrev pub transport_standalone : String
transport_standalone = "standalone"

-- `TransportDistributed`.
abbrev pub transport_distributed : String
transport_distributed = "distributed"

-- `DefaultUDSBase`.
abbrev pub default_uds_base : String
default_uds_base = "/tmp/angzarr"

-- `DefaultNamespace`.
abbrev pub default_namespace : String
default_namespace = "angzarr"

-- `DefaultCHPort`.
abbrev default_ch_port : ℤ
default_ch_port = pos 1310

-- The mode that is used where the caller gave `mode`.
abbrev pub resolve_mode : Environment → String → String
resolve_mode environment mode =
    if str_eq mode ""
    then or_default (getenv environment "ANGZARR_MODE") transport_distributed
    else mode

-- `fmt.Sprintf("%s/ch-%s.sock", base, domain)`.
abbrev pub standalone_endpoint : String → String → String
standalone_endpoint base domain = base ⧺ "/ch-" ⧺ domain ⧺ ".sock"

-- `fmt.Sprintf("ch-%s.%s.svc:%d", domain, namespace, port)`.
abbrev pub distributed_endpoint : String → String → String → String
distributed_endpoint namespace port domain = "ch-" ⧺ domain ⧺ "." ⧺ namespace ⧺ ".svc:" ⧺ port

module _ (format : IntFormat) where
  open format use {scan, print}

  abbrev port_or_default : Option ℤ → ℤ
  port_or_default none = default_ch_port
  port_or_default (some port) = port

  abbrev pub port_of : String → ℤ
  port_of port_str = if str_eq port_str "" then default_ch_port else port_or_default (scan port_str)

  -- `ResolveCHEndpoint`.
  unfoldable pub resolve_ch_endpoint : Environment → (domain mode : String) → String
  resolve_ch_endpoint environment domain mode =
      if str_eq (resolve_mode environment mode) transport_standalone
      then standalone_endpoint (or_default (getenv environment "ANGZARR_UDS_BASE") default_uds_base)
          domain
      else distributed_endpoint
          (or_default (getenv environment "ANGZARR_NAMESPACE") default_namespace)
          (print (port_of (getenv environment "ANGZARR_CH_PORT"))) domain

-- `formatEndpoint`; its two last branches both return the endpoint as it is.
unfoldable pub format_endpoint : String → String
format_endpoint endpoint =
    if has_prefix endpoint "/" || has_prefix endpoint "./"
    then "unix://" ⧺ endpoint
    else if has_prefix endpoint "unix://"
    then endpoint
    else endpoint
