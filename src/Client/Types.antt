-- ===== src/Client/Types.antt =====
-- mip-client-rust/src/client/types.rs: errors, options and messages.
use mip_clients.Common.{ℕ, Bool, true, Text, ascii, Result}
use mip_clients.Protocol.{Header}

-- The kind of a `std::io::Error`, which is all that the client passes on of it.
abbrev pub IoErrorKind : Type 0
IoErrorKind = ℕ

pub data MipError : Type 0 where
  connection : Text → MipError
  io : IoErrorKind → MipError
  not_connected : MipError
  invalid_magic : ℕ → MipError
  protocol : Text → MipError
  max_reconnect_attempts : ℕ → MipError
  server_error : Text → MipError

abbrev pub MipResult {ℓ} : Type ℓ → Type ℓ
MipResult A = Result MipError A

pub record MipClientOptions : Type 0 where
  pub client_id : Text
  pub host : Text
  pub port : ℕ
  pub auto_reconnect : Bool
  pub reconnect_delay_ms : ℕ
  pub max_reconnect_attempts : ℕ
  pub ping_interval_ms : ℕ

abbrev pub default_options : MipClientOptions
default_options = record {
  client_id = ascii "";
  host = ascii "127.0.0.1";
  port = 9000;
  auto_reconnect = true;
  reconnect_delay_ms = 3000;
  max_reconnect_attempts = 10;
  ping_interval_ms = 0;
}

-- The builder's methods.
unfoldable pub with_client_id : MipClientOptions → Text → MipClientOptions
with_client_id o client_id = record o { client_id = client_id }

unfoldable pub with_host : MipClientOptions → Text → MipClientOptions
with_host o host = record o { host = host }

unfoldable pub with_port : MipClientOptions → ℕ → MipClientOptions
with_port o port = record o { port = port }

unfoldable pub with_auto_reconnect : MipClientOptions → Bool → MipClientOptions
with_auto_reconnect o enabled = record o { auto_reconnect = enabled }

unfoldable pub with_reconnect_delay_ms : MipClientOptions → ℕ → MipClientOptions
with_reconnect_delay_ms o delay = record o { reconnect_delay_ms = delay }

unfoldable pub with_max_reconnect_attempts : MipClientOptions → ℕ → MipClientOptions
with_max_reconnect_attempts o attempts = record o { max_reconnect_attempts = attempts }

unfoldable pub with_ping_interval_ms : MipClientOptions → ℕ → MipClientOptions
with_ping_interval_ms o interval = record o { ping_interval_ms = interval }

pub record MipMessage : Type 0 where
  pub header : Header
  pub topic : Text
  pub message : Text
