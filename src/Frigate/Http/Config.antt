-- ===== src/Frigate/Http/Config.antt =====
-- adapters/frigate/http_config.py: the configuration of the client. `urlsplit` is a parameter; a
-- timeout is in milliseconds.
use nanexus_event_intelligen.Prelude.{
  ℕ, ◌+◌, String, Bool, true, false, not, ◌&&◌, ◌||◌, Option, none, some, is_some, eqb, leb, ltb,
  ◌==◌, string_eq, if◌then◌else◌,
}
use nanexus_event_intelligen.Core.{Result, ok, err, value_error}

-- The parts of a URL: each text is empty where the URL has none.
pub record SplitUrl : Type 0 where
  pub scheme : String
  pub hostname : String
  pub username : String
  pub password : String
  pub path : String
  pub query : String
  pub fragment : String
  pub port : Option ℕ

pub record FrigateHttpConfig : Type 0 where
  pub base_url : String
  pub bearer_token : Option String
  pub username : Option String
  pub password : Option String
  pub proxy_secret : Option String
  pub trusted_internal : Bool
  pub ca_bundle : Option String
  pub timeout_milliseconds : ℕ
  pub max_retries : ℕ
  pub max_json_bytes : ℕ
  pub max_media_bytes : ℕ

-- `Field(...)` of the four numbers.
abbrev pub limits_valid : FrigateHttpConfig → Bool
limits_valid c =
    ltb 0 c.timeout_milliseconds
    && leb c.timeout_milliseconds 120000
    && leb c.max_retries 8
    && leb 1024 c.max_json_bytes
    && leb c.max_json_bytes 20971520
    && leb 1024 c.max_media_bytes
    && leb c.max_media_bytes 209715200

abbrev count : Bool → ℕ
count true = 1
count false = 0

abbrev pub auth_modes : FrigateHttpConfig → ℕ
auth_modes c =
    count (is_some c.bearer_token)
    + count (is_some c.proxy_secret)
    + count (is_some c.username || is_some c.password)

abbrev is_port_5000 : Option ℕ → Bool
is_port_5000 none = false
is_port_5000 (some n) = eqb n 5000

abbrev same : Bool → Bool → Bool
same true b = b
same false b = not b

-- Each guard of the validator, in its order.
unfoldable pub validate_security_boundary :
    (String → SplitUrl) → FrigateHttpConfig → Result FrigateHttpConfig
validate_security_boundary urlsplit c =
    let parsed = urlsplit c.base_url in
    if not (parsed.scheme == "http" || parsed.scheme == "https") || parsed.hostname == ""
    then err (value_error "base_url must be an absolute HTTP(S) origin")
    else if not (
        parsed.username == ""
        && parsed.password == ""
        && parsed.query == ""
        && parsed.fragment == "")
    then err (value_error "base_url cannot contain credentials, query, or fragment")
    else if not (parsed.path == "" || parsed.path == "/")
    then err (value_error "base_url must not contain an application path")
    else if ltb 1 (auth_modes c)
    then err (value_error "configure exactly one HTTP authentication mode")
    else if not (same (is_some c.username) (is_some c.password))
    then err (value_error "username and password must be configured together")
    else if parsed.scheme == "http" && not c.trusted_internal
    then err (value_error "plain HTTP requires trusted_internal=true")
    else if is_port_5000 parsed.port && not c.trusted_internal
    then err (value_error "Frigate port 5000 is restricted to trusted internal networks")
    else ok c

-- `FrigateHttpConfig(...)`
unfoldable pub config_of : (String → SplitUrl) → FrigateHttpConfig → Result FrigateHttpConfig
config_of urlsplit c =
    if limits_valid c
    then validate_security_boundary urlsplit c
    else err (value_error "validation error")

-- `base_url.rstrip("/")`
unfoldable pub rstrip_slash : String → String
rstrip_slash String.[] = ""
rstrip_slash (String.◌∷◌ c s) =
    let rest = rstrip_slash s in
    if rest == "" && String.◌∷◌ c String.[] == "/" then "" else String.◌∷◌ c rest

abbrev pub origin : FrigateHttpConfig → String
origin c = rstrip_slash c.base_url
