-- ===== src/Client.antt =====
-- src/core/client.rs: one connection as the client sees it, and how it is made again.
-- The environment of a connection attempt, of a write and of the reads are arguments, and so is the
-- jitter of each wait between two attempts. `send`, `try_send` and `receive` take the client by
-- reference and change no field of it; `connect`, `disconnect` and `reconnect` return the new client.
pub mod Reconnect
pub mod Reads
pub mod Writes
pub mod Recovery
use rust_network_system.Base.{
  ℕ, zero, suc, ◌+◌, ◌-◌, ◌*◌, Bool, true, false, not, ◌&&◌, ◌||◌, Option, none, some, List, [],
  ◌∷◌, ◌++◌, String, min, ◌==◌, if◌then◌else◌, length, take, drop,
}
use rust_network_system.Error.{
  NetworkError, Result, ok, err, ◌>>=◌, timeout, connection, invalid_state, invalid_address, other,
}
use rust_network_system.Message.{Message, encode}
use rust_network_system.Session.{WriteOutcome, written, write_timed_out, write_failed}
use rust_network_system.Session.Assembly.{ReadEvent, Received, receive_loop}

pub record ClientConfig : Type 0 where
  pub connect_timeout : ℕ
  pub read_timeout : ℕ
  pub write_timeout : ℕ
  pub keep_alive : Option ℕ
  pub auto_reconnect : Bool
  pub max_reconnect_attempts : ℕ

-- Times are numbers of nanoseconds.
abbrev second : ℕ
second = 1000000000

unfoldable pub default_config : ClientConfig
default_config = record {
  connect_timeout = 10 * second;
  read_timeout = 30 * second;
  write_timeout = 10 * second;
  keep_alive = some (60 * second);
  auto_reconnect = true;
  max_reconnect_attempts = 3;
}

unfoldable pub with_connect_timeout : ClientConfig → ℕ → ClientConfig
with_connect_timeout c t = record c { connect_timeout = t }

unfoldable pub with_read_timeout : ClientConfig → ℕ → ClientConfig
with_read_timeout c t = record c { read_timeout = t }

unfoldable pub with_write_timeout : ClientConfig → ℕ → ClientConfig
with_write_timeout c t = record c { write_timeout = t }

unfoldable pub with_keep_alive : ClientConfig → Option ℕ → ClientConfig
with_keep_alive c interval = record c { keep_alive = interval }

unfoldable pub with_auto_reconnect : ClientConfig → Bool → ClientConfig
with_auto_reconnect c enabled = record c { auto_reconnect = enabled }

pub data ClientState : Type 0 where
  disconnected connecting connected reconnecting : ClientState

-- `stream` and `shutdown_tx` are `true` while their `Option` is `Some`.
pub record TcpClient : Type 0 where
  pub config : ClientConfig
  pub address : String
  pub state : ClientState
  pub stream : Bool
  pub shutdown_tx : Bool

unfoldable pub with_config : String → ClientConfig → TcpClient
with_config address c = record {
  config = c;
  address = address;
  state = disconnected;
  stream = false;
  shutdown_tx = false;
}

unfoldable pub is_connected : ClientState → Bool
is_connected connected = true
is_connected _ = false

unfoldable pub is_connecting : ClientState → Bool
is_connecting connecting = true
is_connecting _ = false

pub data ConnectOutcome : Type 0 where
  accepted : ConnectOutcome
  connect_timed_out : ConnectOutcome
  refused : String → ConnectOutcome

-- What an attempt meets: the error of the parser of addresses, the outcome of the connection, and the
-- error of one of the calls that set the TCP options.
pub record Environment : Type 0 where
  pub bad_address : Option String
  pub outcome : ConnectOutcome
  pub bad_options : Option String

parsed : Option String → Result (Unit {0})
parsed none = ok tt
parsed (some text) = err (invalid_address text)

joined : ConnectOutcome → Result (Unit {0})
joined accepted = ok tt
joined connect_timed_out = err (timeout "Connection timed out")
joined (refused text) = err (connection text)

options_set : Option ℕ → Option String → Result (Unit {0})
options_set none failure = ok tt
options_set (some interval) none = ok tt
options_set (some interval) (some text) = err (other text)

-- From the parse of the address to a stream whose options are set.
unfoldable pub establish : Option ℕ → Environment → Result (Unit {0})
unfolding parsed joined options_set
establish keep_alive e = do
  _ ← parsed e.bad_address
  _ ← joined e.outcome
  options_set keep_alive e.bad_options

-- A client with a stream.
abbrev pub up : TcpClient → TcpClient
up c = record c { stream = true; state = connected }

unfoldable pub settle : TcpClient → Result (Unit {0}) → Result (Unit {0}) × TcpClient
settle c (ok u) = (ok u, up c)
settle c (err e) = (err e, c)

unfoldable pub connect_internal : Bool → TcpClient → Environment → Result (Unit {0}) × TcpClient
unfolding settle
connect_internal is_reconnect c e =
    if not is_reconnect && (is_connected c.state || is_connecting c.state)
    then (err (invalid_state "Client is already connected or connecting"), c)
    else settle (record c { state = if is_reconnect then reconnecting else connecting })
        (establish c.config.keep_alive e)

unfoldable pub connect : TcpClient → Environment → Result (Unit {0}) × TcpClient
connect c e = connect_internal false c e

unfoldable pub disconnect : TcpClient → TcpClient
disconnect c = record c { shutdown_tx = false; stream = false; state = disconnected }

abbrev pub max_delay_ms : ℕ
max_delay_ms = 30000

-- The result, the client, and the waits between the attempts in milliseconds.
abbrev pub Reconnected : Type 0
Reconnected = Result (Unit {0}) × TcpClient × List ℕ

-- What follows an attempt: `wait` is the wait before the next one, and `again` the rest of the loop. The
-- number of attempts in the text of the last error is left out.
unfoldable pub after_attempt :
    (left wait : ℕ) → (TcpClient → Reconnected) → Result (Unit {0}) × TcpClient → Reconnected
after_attempt left wait again (ok u, c) = (ok tt, c, [])
after_attempt zero wait again (err e, c) =
    (err (connection "Failed to reconnect"), record c { state = disconnected }, [])
after_attempt (suc left) wait again (err e, c) =
    (let (result, c', waits) = again c in (result, c', wait ∷ waits))

-- The loop of `reconnect` before the attempt with the number `attempt`, counted from 0: `left` attempts
-- remain.
unfoldable pub reconnect_loop :
    (ℕ → Environment) → (jitter : ℕ → ℕ) → (left attempt delay_ms : ℕ) → TcpClient → Reconnected
unfolding after_attempt
reconnect_loop env jitter zero attempt delay_ms c =
    (err (connection "Max reconnection attempts reached"), record c { state = disconnected }, [])
reconnect_loop env jitter (suc left) attempt delay_ms c =
    after_attempt left (delay_ms + jitter attempt)
      (λ c'. reconnect_loop env jitter left (suc attempt) (min (delay_ms * 2) max_delay_ms) c')
      (connect_internal true c (env attempt))

unfoldable pub reconnect : (ℕ → Environment) → (ℕ → ℕ) → TcpClient → Reconnected
unfolding reconnect_loop
reconnect env jitter c = reconnect_loop env jitter c.config.max_reconnect_attempts 0 100 c

unfoldable pub is_connection_error : NetworkError → Bool
is_connection_error (connection text) = true
is_connection_error (invalid_state text) = true
is_connection_error _ = false
