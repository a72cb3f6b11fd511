-- ===== src/Host.antt =====
-- What the program takes from outside: the clock, identifiers, files, commands, and the libraries
-- that it calls. During one call of the program the files of the project do not change by themselves.
use forge_os.Base.{ℕ, String, Bool, List}
use forge_os.Events.Model.{Value}

-- How a command of `subprocess.run` ends. A process that signal n killed has the return code -n.
pub data CommandRun : Type 0 where
  exited : ℕ → String → String → CommandRun
  killed : ℕ → String → String → CommandRun
  timed_out : CommandRun
  not_run : String → CommandRun

-- What `json.loads(text).get(key)` gives: an exception, `None`, a number, or a value of another type
-- by its `str` and the name of its type.
pub data MetricRead (Num : Type 0) : Type 0 where
  unreadable : String → MetricRead Num
  absent : MetricRead Num
  found : Num → MetricRead Num
  other : String → String → MetricRead Num

-- What a library call hands back, or the text of the exception that it raises.
pub data Attempt (A : Type 0) : Type 0 where
  value : A → Attempt A
  error : String → Attempt A

-- What a `write_text` that raises leaves: the file as it was, no text, a text that cannot be read, or
-- one that reads as the first entries of what was written.
pub data FailedWrite : Type 0 where
  untouched emptied : FailedWrite
  garbled : String → FailedWrite
  cut : ℕ → FailedWrite

pub record Host : Type 1 where
  -- floating-point numbers, with Python's tests and `str`
  pub Num : Type 0
  pub num_leb : Num → Num → Bool
  pub num_ltb : Num → Num → Bool
  pub num_eqb : Num → Num → Bool
  pub show_num : Num → String
  -- `float(n)` of an integer or a float, where it is not too large
  pub as_double : Num → Num
  pub num_add : Num → Num → Num
  pub num_mul : Num → Num → Num
  pub num_div : Num → Num → Num
  -- f"{x:.0f}", `0.5 ** x`, `round(x, n)` and `math.isfinite`
  pub show_whole : Num → String
  pub half_power : Num → Num
  pub round : Num → ℕ → Num
  pub is_finite : Num → Bool
  -- the number of a literal in the source
  pub literal : String → Num
  -- `datetime.fromisoformat`, the `total_seconds` between two moments, and `str.replace`
  pub Moment : Type 0
  pub from_iso : String → Attempt Moment
  pub total_seconds : Moment → Moment → Attempt Num
  pub replace : String → String → String → String
  -- the n-th reading of the clock, of `uuid4`, and of the stopwatch in milliseconds
  pub utc_now : ℕ → String
  pub uuid : ℕ → String
  pub elapsed_ms : ℕ → ℕ
  -- the project's files, by their relative paths
  pub is_file : String → Bool
  pub exists : String → Bool
  pub read_text : String → Attempt String
  pub writable : String → Bool
  pub failed_write : String → FailedWrite
  -- the SHA-256 of a file, its time of modification, and its bytes decoded
  pub content_hash : String → String
  pub modified_at : String → String
  pub decoded : String → String
  -- `re.search(pattern, content, re.MULTILINE)`, `subprocess.run`, `json.loads`, `str.strip`
  pub search : String → String → Attempt Bool
  pub run_command : List String → ℕ → CommandRun
  pub metric : String → String → MetricRead Num
  pub strip : String → String
  pub lower : String → String
  pub upper : String → String
  pub show_nat : ℕ → String
  pub show_list : List String → String
  -- pydantic's validation of a field, from a value of a YAML file
  pub as_texts : Value Num → Attempt (List String)
  pub as_nat : Value Num → Attempt ℕ
  pub as_float : Value Num → Attempt Num
  pub as_text : Value Num → Attempt String
