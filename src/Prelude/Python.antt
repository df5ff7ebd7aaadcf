-- ===== src/Prelude/Python.antt =====
-- The built-in text functions that the program calls, as parameters: their tables of Unicode
-- characters and numerals are the interpreter's, and no theorem depends on what they hold.
use Prim.Native.String.{String}
use mathlib.Core.Option.{Option}
use diploma_munka.Prelude.Int.{ℤ}

pub record PyText : Type 0 where
  -- `s.strip()`, `s.lower()`, `s.upper()`, `s.casefold()`
  pub strip : String → String
  pub lower : String → String
  pub upper : String → String
  pub casefold : String → String
  -- `int(s)`; `none` is its ValueError
  pub int_of : String → Option ℤ
