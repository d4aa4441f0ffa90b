-- ===== src/Config.antt =====
-- internal/config/config.go: the three configuration files and their defaults.
-- YAML is a parameter; a duration is a number of nanoseconds that is not negative.
use token_go.Base.{
  ℕ, ◌*◌, ◌^◌, Bytes, text, List, Option, none, some, Map, Result, ok, err, ◌>>=◌, ◌==◌,
  if◌then◌else◌,
}
use token_go.Net.{is_empty}
use token_go.Files.{Access, Files, read_file}

pub record ClientConfig : Type 0 where
  pub listen : Bytes
  pub timeout : ℕ
  pub bootstrap_peers : List Bytes

pub record DhtConfig : Type 0 where
  pub bootstrap_peers : List Bytes
  pub listen_addrs : List Bytes
  pub external_addrs : List Bytes
  pub private_key_file : Bytes
  pub mode : Bytes

pub record RelayConfig : Type 0 where
  pub listen : Bytes
  pub dht : DhtConfig

pub record AiBackend : Type 0 where
  pub url : Bytes
  pub api_key : Bytes
  pub headers : Map Bytes

pub record ExitConfig : Type 0 where
  pub ohttp_private_key_file : Bytes
  pub ohttp_public_key_file : Bytes
  pub ai_backend : AiBackend
  pub dht : DhtConfig

pub data ConfigError : Type 0 where
  read_failed parse_failed : ConfigError

abbrev pub or_fail {ℓ} : {A : Type ℓ} → ConfigError → Option A → Result ConfigError A
or_fail e none = err e
or_fail e (some a) = ok a

-- `if s == "" { s = default }`
abbrev pub or_default : Bytes → Bytes → Bytes
or_default default s = if is_empty s then default else s

module _ (access : Access) (files : Files) where
  unfoldable pub load_client_config :
      (Bytes → Option ClientConfig) → Bytes → Result ConfigError ClientConfig
  unfolding read_file
  load_client_config unmarshal path =
      or_fail ConfigError.read_failed (read_file access path files) >>= λ content.
      or_fail ConfigError.parse_failed (unmarshal content) >>= λ cfg. ok (record cfg {
        listen = or_default (text "127.0.0.1:8080") cfg.listen;
        timeout = if cfg.timeout == 0 then 30 * 10 ^ 9 else cfg.timeout;
      })

  unfoldable pub load_relay_config :
      (Bytes → Option RelayConfig) → Bytes → Result ConfigError RelayConfig
  unfolding read_file
  load_relay_config unmarshal path =
      or_fail ConfigError.read_failed (read_file access path files) >>= λ content.
      or_fail ConfigError.parse_failed (unmarshal content) >>= λ cfg.
      ok (record cfg { listen = or_default (text ":4433") cfg.listen })

  unfoldable pub load_exit_config :
      (Bytes → Option ExitConfig) → Bytes → Result ConfigError ExitConfig
  unfolding read_file
  load_exit_config unmarshal path =
      or_fail ConfigError.read_failed (read_file access path files) >>= λ content.
      or_fail ConfigError.parse_failed (unmarshal content) >>= λ cfg. ok (record cfg {
        ai_backend = record cfg.ai_backend {
          url = or_default (text "http://localhost:11434") cfg.ai_backend.url;
        };
      })
