-- ===== src/Parsing/Interpreter.antt =====
-- What utils/parsing.py takes from Python, as parameters: conversions of floats and dates, JSON, the
-- Unicode tables of characters, and SHA-256.
use Prim.Native.Char.{Char}
use diploma_munka.Prelude.{ℕ, Bool, Option, String}
use diploma_munka.Prelude.Int.{ℤ}
use diploma_munka.Prelude.Python.{PyText}
use diploma_munka.Prelude.Results.{Result}
use diploma_munka.Ingest.Json.{Json}

-- The exceptions that the code can meet, by class.
pub data PyError : Type 0 where
  value_error overflow_error os_error recursion_error : PyError

pub record Interpreter : Type 1 where
  pub py : PyText
  -- floats, and `datetime`
  pub F : Type 0
  pub D : Type 0
  -- `\d`, `\s`, and whether a character beyond ASCII is `\w`
  pub is_decimal : Char → Bool
  pub is_space : Char → Bool
  pub is_other_word : Char → Bool
  -- `s.isdigit()`, `int(s)` of such a text, `int(s, 16)`
  pub isdigit : String → Bool
  pub int_of_digits : String → Result PyError ℤ
  pub int_of_hex : String → Option ℤ
  -- `float(s)`; `none` is its ValueError
  pub float_of : String → Option F
  pub float_of_int : ℤ → Result PyError F
  -- `int(x)`, which refuses an infinity and a NaN
  pub int_of_float : F → Result PyError ℤ
  -- `x * n`, `x / n`, `x == n`, `x < n`, `x <= n`, `x > n` for an integer `n`
  pub times : F → ℕ → F
  pub over : F → ℕ → F
  pub eq_int : F → ℕ → Bool
  pub lt_int : F → ℕ → Bool
  pub le_int : F → ℕ → Bool
  pub gt_int : F → ℕ → Bool
  -- `datetime.fromtimestamp(n, tz=timezone.utc)`, of an integer and of a float, where the code
  -- catches all exceptions of the latter
  pub from_timestamp : ℤ → Result PyError D
  pub from_timestamp_float : F → Option D
  -- `none` is its ValueError
  pub from_isoformat : String → Option D
  -- `d.tzinfo is not None` and `d.replace(tzinfo=timezone.utc)`
  pub has_zone : D → Bool
  pub set_utc : D → D
  -- `str(v)`, `json.loads(s)` (`none` is JSONDecodeError), and the three forms of `json.dumps`
  pub str_of : Json F → String
  pub json_loads : String → Option (Json F)
  pub dumps : Json F → String
  pub dumps_sorted : Json F → String
  -- `hashlib.sha256(s.encode("utf-8")).hexdigest()`
  pub sha256_hex : String → String
