-- ===== src/Gateway/Proxy.antt =====
-- `proxy_request` of gateway_server/gateway.py. The HTTP client, whether a
-- process still runs, and `str.lower` are parameters. Method, query, body and cookies are passed
-- on as they are and are left out.
pub mod Forwarding
use ara_nes_lms_core.Base.{
  string_eq, nat_eq, str_le, ℕ, String, Bool, not, Option, none, some, List, [], ◌∷◌, filter, any,
  ◌==◌, if◌then◌else◌, Result, ok, raise,
}
use Prim.Native.String.{◌++◌}
use ara_nes_lms_core.Errors.{Error, http_exception}
use ara_nes_lms_core.Dict.{Dict, get, pop}
use ara_nes_lms_core.Gateway.Paths.{public_plugin_root, to_internal_plugin_path}
use ara_nes_lms_core.Gateway.Launch.{ManagedServiceRuntime}

abbrev pub hop_by_hop_headers : List String
hop_by_hop_headers =
    "connection" ∷ "keep-alive" ∷ "proxy-authenticate" ∷ "proxy-authorization" ∷ "te" ∷ "trailer"
    ∷ "transfer-encoding" ∷ "upgrade" ∷ []

pub record Response : Type 0 where
  pub status_code : ℕ
  pub headers : Dict String String

-- `send url headers` gives `none` where the client raises an `httpx.HTTPError`.
pub record Upstream : Type 0 where
  pub is_running : ℕ → Bool
  pub send : String → Dict String String → Option Response
  pub lower : String → String

module _ (upstream : Upstream) where
  -- `{... for key, value in headers.items() if key.lower() not in HOP_BY_HOP_HEADERS}`
  unfoldable pub forwarded_headers : Dict String String → Dict String String
  forwarded_headers headers =
      filter (λ e. not (any (λ h. h == upstream.lower e.0) hop_by_hop_headers)) headers

  abbrev pub answered : Option Response → Result Error Response
  answered none = raise (http_exception 502)
  answered (some response) = ok (record response { headers = forwarded_headers response.headers })

module _ {F : Type 0} (upstream : Upstream) where
  abbrev proxied :
      String
      → String
      → Dict String String
      → Option (ManagedServiceRuntime F)
      → Result Error Response
  proxied service_name path headers none = raise (http_exception 404)
  proxied service_name path headers (some service) =
      if not (upstream.is_running service.process)
      then raise (http_exception 502)
      else answered upstream (
          upstream.send (service.base_url ++ to_internal_plugin_path path service_name)
            (pop headers "host"))

  -- From the registry, the name in the path, the whole path and the headers of the request.
  unfoldable pub proxy_request :
      Dict String (ManagedServiceRuntime F)
      → String
      → String
      → Dict String String
      → Result Error Response
  unfolding get pop to_internal_plugin_path forwarded_headers
  proxy_request services service_name path headers =
      proxied service_name path headers (get services service_name)
