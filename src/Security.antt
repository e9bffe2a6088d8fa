-- ===== src/Security.antt =====
-- `ensure_secure_transport` of src/security.rs: where credentials may be sent.
use paperbridge.Prelude.{Bool, Option, false, if◌then◌else◌, none, some, ◌&&◌, ◌||◌}
use paperbridge.Text.{Text, codes, eq_text}
use paperbridge.Hits.{Platform, Url}

-- Why a URL is refused.
pub data TransportError : Type 0 where
  invalid_url insecure_url : TransportError

pub data Transport : Type 0 where
  secure : Transport
  refused : TransportError → Transport

abbrev is_host : Option Text → Text → Bool
is_host none name = false
is_host (some host) name = eq_text host name

unfoldable pub is_secure_url : Url → Bool
is_secure_url url =
    eq_text url.scheme (codes "https")
    || (eq_text url.scheme (codes "http")
        && (is_host url.host (codes "localhost")
            || (is_host url.host (codes "127.0.0.1") || is_host url.host (codes "::1"))))

abbrev checked : Option Url → Transport
checked none = refused invalid_url
checked (some url) = if is_secure_url url then secure else refused insecure_url

module _ (p : Platform) where
  unfoldable pub ensure_secure_transport : Text → Transport
  unfolding is_secure_url
  ensure_secure_transport url = checked (p.parse_url url)
