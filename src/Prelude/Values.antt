-- ===== src/Prelude/Values.antt =====
-- Python values of a type that the code does not fix (`Any`), as a parameter: the operations that
-- the program applies to them. Rows and payloads are dictionaries of such values.
use Prim.Native.String.{String}
use mathlib.Core.Bool.{Bool}
use mathlib.Core.Option.{Option, none, some}
use mathlib.Core.List.{List}
use diploma_munka.Prelude.Int.{ℤ}

pub record Values : Type 1 where
  pub V : Type 0
  -- `None`, and `v is None`
  pub null : V
  pub is_none : V → Bool
  pub of_text : String → V
  pub of_int : ℤ → V
  -- `bool(v)`, `v == w`, `str(v)`
  pub truthy : V → Bool
  pub eq : V → V → Bool
  pub str : V → String
  -- `int(v)`; `none` is its exception
  pub to_int : V → Option ℤ
  -- `v < w`, `v <= w`, `v - w`, `abs(v)`, `v * 0.25`, on numbers
  pub lt : V → V → Bool
  pub le : V → V → Bool
  pub sub : V → V → V
  pub absolute : V → V
  pub quarter : V → V
  -- the elements of a list
  pub elements : V → List V

module _ (vs : Values) where
  open vs use {V, null}

  -- `none` for a key that is not there.
  abbrev pub Dict : Type 0
  Dict = String → Option V

  -- `d.get(key)`
  abbrev pub get : Dict → String → V
  get d key = elim (d key) [ none ↦ null | some v ↦ v ]
