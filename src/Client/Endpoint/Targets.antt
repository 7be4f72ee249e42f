-- ===== src/Client/Endpoint/Targets.antt =====
-- The gRPC targets of `ResolveCHEndpoint` and `formatEndpoint` in client.go.
use Prim.Native.String.{count}
use text.Mathlib.TextLemmas.{
  append_cancel_left, append_cancel_right, append_assoc, length-append, nil-append, length-cons,
}
use angzarr_client_go.Prelude.{
  String, ◌⧺◌, ◌≡◌, ◌≤◌, refl, sym, ap, ◌∙◌, arith, true, false, Bool, has_prefix,
  has_prefix-append, str_eq, if◌then◌else◌, ◌||◌,
}
use angzarr_client_go.Os.{Environment, getenv, or_default}
use angzarr_client_go.Client.Endpoint.{
  IntFormat, resolve_mode, transport_distributed, transport_standalone, default_uds_base,
  default_namespace, port_of, standalone_endpoint, distributed_endpoint, resolve_ch_endpoint,
  format_endpoint,
}

abbrev socket_prefix : Bool → String
socket_prefix path = if path then "unix://" else ""

format_endpoint_lem :
    (s t : String)
    → 2 ≤ count s
    → format_endpoint (s ⧺ t) ≡ socket_prefix (has_prefix s "/" || has_prefix s "./") ⧺ s ⧺ t
unfolding format_endpoint
format_endpoint_lem s t h =
    let one = has_prefix-append s t "/" (omega (arith, h)) in
    let two = has_prefix-append s t "./" (omega (arith, h)) in
    rw (one, two) (ground (arith, nil-append (s ⧺ t)))

-- Go's two formats of an endpoint put the domain between texts that do not depend on it.
target_of_parts :
    (s d t : String)
    → 2 ≤ count s
    → format_endpoint (s ⧺ d ⧺ t)
      ≡ (socket_prefix (has_prefix s "/" || has_prefix s "./") ⧺ s) ⧺ d ⧺ t
target_of_parts s d t h =
    format_endpoint_lem s (d ⧺ t) h
    ∙ sym (append_assoc (socket_prefix (has_prefix s "/" || has_prefix s "./")) s (d ⧺ t))

parts-injective :
    (s t d e : String)
    → 2 ≤ count s
    → format_endpoint (s ⧺ d ⧺ t) ≡ format_endpoint (s ⧺ e ⧺ t)
    → d ≡ e
parts-injective s t d e h same = append_cancel_right d e t (
    append_cancel_left _ (d ⧺ t) (e ⧺ t)
      (sym (target_of_parts s d t h) ∙ same ∙ target_of_parts s e t h))

standalone-injective :
    (base d e : String)
    → format_endpoint (standalone_endpoint base d) ≡ format_endpoint (standalone_endpoint base e)
    → d ≡ e
standalone-injective base d e same =
    let split = λ (f : String). ap format_endpoint (append_assoc base "/ch-" (f ⧺ ".sock")) in
    parts-injective (base ⧺ "/ch-") ".sock" d e (omega (arith, length-append base "/ch-"))
      (split d ∙ same ∙ sym (split e))

distributed-injective :
    (namespace port d e : String)
    → format_endpoint (distributed_endpoint namespace port d)
      ≡ format_endpoint (distributed_endpoint namespace port e)
    → d ≡ e
distributed-injective namespace port d e =
    parts-injective "ch-" ("." ⧺ namespace ⧺ ".svc:" ⧺ port) d e (omega arith)

count-of_prefix : (s : String) → has_prefix s "/" ≡ true → 1 ≤ count s
unfolding has_prefix
count-of_prefix String.[] h = absurd (cc h)
count-of_prefix (String.◌∷◌ c s) h = omega (arith, length-cons c s)

format_endpoint_absolute :
    (s t : String) → has_prefix s "/" ≡ true → format_endpoint (s ⧺ t) ≡ "unix://" ⧺ s ⧺ t
unfolding format_endpoint
format_endpoint_absolute s t h =
    let one = has_prefix-append s t "/" (omega (arith, count-of_prefix s h)) in rw (one, h) refl

module _ (format : IntFormat) (environment : Environment) where
  -- In one environment and one mode, two domains have one gRPC target only if they are one domain.
  pub target-injective :
      (d e mode : String)
      → format_endpoint (resolve_ch_endpoint format environment d mode)
        ≡ format_endpoint (resolve_ch_endpoint format environment e mode)
      → d ≡ e
  unfolding resolve_ch_endpoint
  target-injective d e mode same =
      go (str_eq (resolve_mode environment mode) transport_standalone) same
    where
      base : String
      base = or_default (getenv environment "ANGZARR_UDS_BASE") default_uds_base

      namespace : String
      namespace = or_default (getenv environment "ANGZARR_NAMESPACE") default_namespace

      port : String
      port = IntFormat.print format (port_of format (getenv environment "ANGZARR_CH_PORT"))

      endpoint : Bool → String → String
      endpoint b f = if b then standalone_endpoint base f else distributed_endpoint namespace port f

      go : (b : Bool) → format_endpoint (endpoint b d) ≡ format_endpoint (endpoint b e) → d ≡ e
      go true h = standalone-injective base d e h
      go false h = distributed-injective namespace port d e h

  -- The base directory of sockets starts with a slash.
  abbrev pub IsAbsoluteBase : Type 0
  IsAbsoluteBase =
      has_prefix (or_default (getenv environment "ANGZARR_UDS_BASE") default_uds_base) "/" ≡ true

  -- In the distributed mode the target is the endpoint itself; in the standalone mode, with a base
  -- directory that starts with a slash, it is the URI of the socket.
  pub target-scheme :
      (domain : String)
      → IsAbsoluteBase
      → (format_endpoint (resolve_ch_endpoint format environment domain transport_distributed)
          ≡ resolve_ch_endpoint format environment domain transport_distributed)
        × (format_endpoint (resolve_ch_endpoint format environment domain transport_standalone)
            ≡ "unix://" ⧺ resolve_ch_endpoint format environment domain transport_standalone)
  unfolding resolve_ch_endpoint has_prefix
  target-scheme domain h =
      (format_endpoint_lem "ch-" _ (omega arith) ∙ nil-append _, format_endpoint_absolute _ _ h)
