-- ===== src/Timestamp.antt =====
-- `toTimestamppb` of core/datasetmanager/datasetindexerdb.go: the dates that the databases hold as
-- text are read back by taking the first two runs of digits as seconds and nanoseconds.
pub mod Format
pub mod Print
mod Tests
use lohpi.Common.{
  ltb, leb, if◌then◌else◌, format_error, range_error, Outcome, ok, err, panic, ◌>>=◌, ℕ, ◌+◌, ◌-◌,
  ◌*◌, ◌/◌, ◌%◌, ◌^◌, Bool, true, false, ◌&&◌, List, [], ◌∷◌, ◌++◌,
}
use lohpi.Proto.{Timestamp}

unfoldable pub is_digit : ℕ → Bool
is_digit c = leb b'0' c && leb c b'9'

-- a finished run of digits is a match, if it is not empty
unfoldable pub flush : List ℕ → List (List ℕ) → List (List ℕ)
flush [] found = found
flush (c ∷ run) found = (c ∷ run) ∷ found

-- `regexp.MustCompile("[0-9]+").FindAllStringSubmatch(s, -1)`; `run` is the match being read
unfoldable pub find_runs : List ℕ → List ℕ → List (List ℕ)
unfolding flush
find_runs run [] = flush run []
find_runs run (c ∷ s) = elim (is_digit c) [
  | true ↦ find_runs (run ++ c ∷ []) s
  | false ↦ flush run (find_runs [] s)
]

unfoldable pub find_all : List ℕ → List (List ℕ)
unfolding find_runs
find_all s = find_runs [] s

unfoldable pub decimal : ℕ → List ℕ → ℕ
decimal acc [] = acc
decimal acc (c ∷ s) = decimal (acc * 10 + (c - b'0')) s

-- `strconv.ParseInt(s, 10, 64)` of a run of digits
unfoldable pub parse_int : List ℕ → Outcome ℕ
unfolding decimal
parse_int s = let n = decimal 0 s in if ltb n (2 ^ 63) then ok n else err range_error

-- `pbtime.New(time.Unix(seconds, nanos))`: whole seconds are carried out of the nanoseconds
unfoldable pub from_unix : ℕ → ℕ → Timestamp
from_unix seconds nanos = record {
  seconds = (seconds + nanos / 1_000_000_000) % 2 ^ 64;
  nanos = nanos % 1_000_000_000;
}

-- `rxp[0][0]` and `rxp[1][0]`: the second index is not guarded, so one match alone panics
from_runs : List (List ℕ) → Outcome Timestamp
unfolding parse_int from_unix
from_runs [] = err format_error
from_runs (secs ∷ []) = panic
from_runs (secs ∷ nanos ∷ _) = do
  seconds ← parse_int secs
  nanoseconds ← parse_int nanos
  ok (from_unix seconds nanoseconds)

unfoldable pub to_timestamppb : List ℕ → Outcome Timestamp
unfolding from_runs find_all is_digit
to_timestamppb [] = err format_error
to_timestamppb (c ∷ s) = from_runs (find_all (c ∷ s))
