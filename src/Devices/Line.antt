-- ===== src/Devices/Line.antt =====
-- crates/trace-devices/src/tcp.rs: a device that sends one line of text for each reading. The parser of
-- `f64`, the characters of a text and the network are parameters.
pub mod Signs
use Prim.Native.String.{◌++◌ as text_append}
use traceability.Base.{
  ℕ, ◌/◌, String, Bool, true, false, not, ◌&&◌, ◌||◌, List, [], ◌∷◌, ◌++◌, Option, none, some,
  Result, ok, err, ◌>>=◌, if◌then◌else◌, ◌==◌, is_digit, is_empty, trim, str_eq,
}
use traceability.Core.Dcp.{Float64, Value, numeric, canonical}
use traceability.Devices.Retry.{Duration}
use traceability.Devices.Driver.{
  DeviceError, not_connected, timed_out, unparseable, bad_config, PointRef, RawSample, DeviceHealth,
  default_health, record_success, record_failure, DeviceConfig, Settings, ok_or, require_str,
  timeout, DeviceDriver, Detail, not_called, closed, connect_timed_out, connect_failed, failed,
}

-- What the code uses of texts and numbers: `str::chars`, and `str::parse::<f64>().ok()`.
pub record Reader (F : Type 0) : Type 0 where
  pub chars : String → List ℕ
  pub parse : List ℕ → Option F

module _ {F : Type 0} (reader : Reader F) where
  -- The closure `flush`: the best number after it; what was collected is cleared.
  unfoldable pub flush : List ℕ → Option F → Option F
  flush current (some best) = some best
  flush current none = if is_empty current then none else reader.parse current

  abbrev pub is_taken : ℕ → List ℕ → Bool
  is_taken ch current =
      is_digit ch || (ch == b'.' || ((ch == b'-' || ch == b'+') && is_empty current))

  -- The loop of `parse_line`.
  unfoldable pub scan : Option F → List ℕ → List ℕ → Option F
  scan best current [] = flush current best
  scan best current (ch ∷ line) =
      if is_taken ch current
      then scan best (current ++ ch ∷ []) line
      else scan (flush current best) [] line

  unfoldable pub parse_line : List ℕ → Option F
  parse_line line = scan none [] line

pub data LinkFault : Type 0 where
  link_timed_out : LinkFault
  link_failed : (detail : String) → LinkFault

-- `TcpStream` with its buffer, `N`, and the network outside, `W`. A line that is read is empty where
-- the device has closed the connection.
pub record Network (W N : Type 0) : Type 0 where
  pub connect : String × ℕ → Duration → W → W × Result LinkFault N
  pub write_all : String → N → N × Result String (Unit {0})
  pub read_line : Duration → N → N × Result LinkFault String

pub record TcpLineDriver (W N : Type 0) : Type 0 where
  pub code : String
  pub addr : String × ℕ
  pub timeout : Duration
  pub poll_command : Option String
  pub stream : Option N
  pub health : DeviceHealth
  pub outside : W

unfoldable pub new : {W N : Type 0} → W → String → TcpLineDriver W N
new outside code = record {
  code = code;
  addr = ("", 0);
  timeout = 5000000000;
  poll_command = none;
  stream = none;
  health = default_health;
  outside = outside;
}

module _ {F J W N : Type 0} (f : Float64 F) (reader : Reader F) (json : Settings J)
    (net : Network W N) where
  abbrev linked :
      ℕ
      → TcpLineDriver W N
      → W × Result LinkFault N
      → TcpLineDriver W N × Result DeviceError (Unit {0})
  linked now d (w, ok n) =
      (record d { stream = some n; health = record_success d.health now; outside = w }, ok tt)
  linked now d (w, err link_timed_out) =
      (record d { outside = w }, err (not_connected d.code (connect_timed_out d.addr.0 d.addr.1)))
  linked now d (w, err (link_failed detail)) = (
    record d { outside = w },
    err (not_connected d.code (connect_failed d.addr.0 d.addr.1 detail)),
  )

  abbrev configured : DeviceConfig J → TcpLineDriver W N → String → ℕ → TcpLineDriver W N
  configured config d host port = record {
    code = config.code;
    addr = (host, port);
    timeout = timeout config;
    poll_command = json.as_str config.settings "poll_command";
    stream = d.stream;
    health = d.health;
    outside = d.outside;
  }

  abbrev link_to : ℕ → TcpLineDriver W N → TcpLineDriver W N × Result DeviceError (Unit {0})
  link_to now d = linked now d (net.connect d.addr d.timeout d.outside)

  -- The address, or the error for the setting that is missing.
  unfoldable pub address : DeviceConfig J → Result DeviceError (String × ℕ)
  address config = require_str json config "host" >>= λ host.
      ok_or (json.as_u64 config.settings "port") (bad_config config.code "port") >>= λ port.
      ok (host, port)

  abbrev connect_at :
      ℕ
      → DeviceConfig J
      → TcpLineDriver W N
      → Result DeviceError (String × ℕ)
      → TcpLineDriver W N × Result DeviceError (Unit {0})
  connect_at now config d (err problem) = (d, err problem)
  connect_at now config d (ok (host, port)) = link_to now (configured config d host port)

  unfoldable pub connect :
      ℕ → DeviceConfig J → TcpLineDriver W N → TcpLineDriver W N × Result DeviceError (Unit {0})
  connect now config d = connect_at now config d (address config)

  -- What a line is worth; the raw line is kept as it came.
  abbrev pub sample_of :
      ℕ → PointRef → String → String → Option F → Result DeviceError (RawSample F)
  sample_of now point code raw none = err (unparseable code raw)
  sample_of now point code raw (some value) =
      ok (record { point = point; value = numeric value; raw = raw; recorded_at = now })

  abbrev pub received :
      ℕ
      → PointRef
      → TcpLineDriver W N
      → N × Result LinkFault String
      → N × Result DeviceError (RawSample F)
  received now point d (n, err link_timed_out) =
      (n, err (timed_out d.code point (d.timeout / 1000000)))
  received now point d (n, err (link_failed detail)) =
      (n, err (not_connected d.code (failed detail)))
  received now point d (n, ok line) =
      if str_eq line ""
      then (n, err (not_connected d.code closed))
      else (n, sample_of now point d.code line (parse_line reader (trim (reader.chars line))))

  abbrev pub polled :
      ℕ
      → PointRef
      → TcpLineDriver W N
      → N × Result String (Unit {0})
      → N × Result DeviceError (RawSample F)
  polled now point d (n, err detail) = (n, err (not_connected d.code (failed detail)))
  polled now point d (n, ok done) = received now point d (net.read_line d.timeout n)

  -- The `async` block of `read`.
  abbrev pub exchange :
      ℕ → PointRef → TcpLineDriver W N → Option String → N → N × Result DeviceError (RawSample F)
  exchange now point d none n = received now point d (net.read_line d.timeout n)
  exchange now point d (some command) n = polled now point d (net.write_all command n)

  abbrev pub stream_after : DeviceError → N → Option N
  stream_after (unparseable device raw) n = some n
  stream_after _ n = none

  abbrev pub settle :
      TcpLineDriver W N
      → N × Result DeviceError (RawSample F)
      → TcpLineDriver W N × Result DeviceError (RawSample F)
  settle d (n, ok sample) =
      (record d { stream = some n; health = record_success d.health sample.recorded_at }, ok sample)
  settle d (n, err problem) = (
    record d { stream = stream_after problem n; health = record_failure d.health problem },
    err problem,
  )

  abbrev pub read_stream :
      ℕ
      → PointRef
      → TcpLineDriver W N
      → Option N
      → TcpLineDriver W N × Result DeviceError (RawSample F)
  read_stream now point d none = (d, err (not_connected d.code not_called))
  read_stream now point d (some n) = settle d (exchange now point d d.poll_command n)

  unfoldable pub read :
      ℕ → PointRef → TcpLineDriver W N → TcpLineDriver W N × Result DeviceError (RawSample F)
  read now point d = read_stream now point d d.stream

  abbrev pub sent :
      TcpLineDriver W N
      → N × Result String (Unit {0})
      → TcpLineDriver W N × Result DeviceError (Unit {0})
  sent d (n, ok done) = (record d { stream = some n }, ok tt)
  sent d (n, err detail) =
      (record d { stream = some n }, err (not_connected d.code (failed detail)))

  abbrev pub write_stream :
      PointRef
      → Value F
      → TcpLineDriver W N
      → Option N
      → TcpLineDriver W N × Result DeviceError (Unit {0})
  write_stream point value d none = (d, err (not_connected d.code not_called))
  write_stream point value d (some n) =
      sent d (
        net.write_all (text_append point (text_append "=" (text_append (canonical f value) "\n")))
          n)

  unfoldable pub write :
      PointRef → Value F → TcpLineDriver W N → TcpLineDriver W N × Result DeviceError (Unit {0})
  write point value d = write_stream point value d d.stream

  abbrev pub driver : DeviceDriver F J (TcpLineDriver W N)
  driver = record { connect = connect; read = read; write = write; health = λ d. d.health }
