-- ===== src/Gateway/Proxy/Forwarding.antt =====
-- What the gateway sends to a plugin and gives back.
use ara_nes_lms_core.Base.{string_eq, String, Option, none, some, Result, ok, raise, ◌≡◌, ◌⊎◌}
use ara_nes_lms_core.Errors.{Error, http_exception}
use ara_nes_lms_core.Dict.{Dict, get}
use ara_nes_lms_core.Gateway.Proxy.{Upstream, Response}

-- The hop-by-hop headers of HTTP/1.1, in lower case.
abbrev pub IsHopByHop : String → Type 0
IsHopByHop name =
    (name ≡ "connection")
    ⊎ (name ≡ "keep-alive")
    ⊎ (name ≡ "proxy-authenticate")
    ⊎ (name ≡ "proxy-authorization")
    ⊎ (name ≡ "te")
    ⊎ (name ≡ "trailer")
    ⊎ (name ≡ "transfer-encoding")
    ⊎ (name ≡ "upgrade")

module _ (upstream : Upstream) where
  -- What the client gets of what the plugin has sent: its status, and its headers but for the
  -- hop-by-hop ones, in whatever case they are written.
  pub record IsRelayed (sent response : Response) : Type 0 where
    pub status : response.status_code ≡ sent.status_code
    pub dropped :
        (name : String) → IsHopByHop (upstream.lower name) → get response.headers name ≡ none
    pub kept :
        (name : String)
        → (IsHopByHop (upstream.lower name) → ⊥)
        → get response.headers name ≡ get sent.headers name

  -- The gateway's answer, from what the request to the plugin gave.
  abbrev pub IsAnswer : Option Response → Result Error Response → Type 0
  IsAnswer none result = result ≡ raise (http_exception 502)
  IsAnswer (some sent) result =
      (response : Response) × (result ≡ ok response) × IsRelayed sent response
