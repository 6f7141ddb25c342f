-- ===== src/Metrics.antt =====
-- apps/api/src/transfer-metrics.ts: the traffic that the storage reports. A text is given by its lines,
-- of which a line that is no counter of a bucket is `other`; times are milliseconds and counters whole
-- numbers. What the server answers, or that it fails, is an argument.
use astra_file_host.Base.{
  ℕ, ◌+◌, ◌-◌, Bool, true, false, ◌&&◌, ◌||◌, not, Option, none, some, List, [], ◌∷◌, ◌==◌, ltb,
  leb, if◌then◌else◌, Result, ok, err, ◌>>=◌, ◌>>◌, throw_if, plain_error,
}

pub record TrafficSample : Type 0 where
  pub received : ℕ
  pub sent : ℕ
  pub at : ℕ

pub data Direction : Type 0 where
  in_bytes out_bytes : Direction

-- A line: a counter of a bucket, whose number may be negative or not finite (`none`), or another text.
pub data Line : Type 0 where
  counter : Direction → ℕ → Option ℕ → Line
  other : Line

abbrev count_line : Direction → ℕ → TrafficSample → TrafficSample
count_line in_bytes value s = record s { received = value }
count_line out_bytes value s = record s { sent = value }

abbrev read_value : Direction → Option ℕ → TrafficSample → Result TrafficSample
read_value direction none s = err plain_error
read_value direction (some value) s = ok (count_line direction value s)

abbrev pub read_line : ℕ → Line → TrafficSample → Result TrafficSample
read_line bucket other s = ok s
read_line bucket (counter direction name value) s =
    if name == bucket then read_value direction value s else ok s

unfoldable pub read_lines : ℕ → List Line → TrafficSample → Result TrafficSample
read_lines bucket [] s = ok s
read_lines bucket (l ∷ ls) s = read_line bucket l s >>= read_lines bucket ls

-- `text.includes('SeaweedFS_')` is an argument.
unfoldable pub parse_traffic : Bool → List Line → ℕ → ℕ → Result TrafficSample
unfolding read_lines
parse_traffic is_metrics lines bucket at = do
  throw_if (not is_metrics) plain_error
  read_lines bucket lines (record { received = 0; sent = 0; at = at })

-- Bytes over milliseconds: a rate is `1000*bytes/window` bytes per second.
pub record Rate : Type 0 where
  pub upload_bytes : ℕ
  pub download_bytes : ℕ
  pub window_ms : ℕ

unfoldable pub traffic_rate : Option TrafficSample → TrafficSample → Option Rate
traffic_rate none current = none
traffic_rate (some previous) current =
    if leb current.at previous.at
      || (ltb current.received previous.received || ltb current.sent previous.sent)
    then none
    else some (record {
      upload_bytes = current.received - previous.received;
      download_bytes = current.sent - previous.sent;
      window_ms = current.at - previous.at;
    })

-- `sample`, `rate` and `healthy`.
pub record Monitor : Type 0 where
  pub sample : Option TrafficSample
  pub rate : Option Rate
  pub healthy : Bool

abbrev pub is_known {ℓ} : {A : Type ℓ} → Option A → Bool
is_known none = false
is_known (some a) = true

abbrev is_recent : ℕ → Option TrafficSample → Bool
is_recent now none = false
is_recent now (some s) = ltb now (s.at + 30000)

-- `transferSnapshot().available`
unfoldable pub snapshot_available : ℕ → Monitor → Bool
snapshot_available now m = m.healthy && (is_recent now m.sample && is_known m.rate)

-- `4*1024**2`
abbrev pub metrics_limit : ℕ
metrics_limit = 4194304

-- What the request for the metrics brings: nothing, or an answer of a size and its lines.
pub record Answer : Type 0 where
  pub good : Bool
  pub size : ℕ
  pub is_metrics : Bool
  pub lines : List Line

abbrev read_answer : Answer → ℕ → ℕ → Result TrafficSample
read_answer a bucket now = do
  throw_if (not a.good) plain_error
  throw_if (ltb metrics_limit a.size) plain_error
  parse_traffic a.is_metrics a.lines bucket now

abbrev settle : Monitor → Result TrafficSample → Monitor
settle m (ok current) = record {
  sample = some current;
  rate = traffic_rate m.sample current;
  healthy = true;
}
settle m (err e) = record { sample = none; rate = none; healthy = false }

-- `poll`
unfoldable pub poll : Result Answer → ℕ → ℕ → Monitor → Monitor
unfolding parse_traffic traffic_rate
poll answer bucket now m = settle m (answer >>= λ a. read_answer a bucket now)
