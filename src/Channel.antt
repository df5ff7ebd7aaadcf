-- ===== src/Channel.antt =====
-- The bounded FIFOs that the components hand data over with: `queue.Queue` of
-- python-processor/app/services/sdrangel/iq_pipeline.py and `asyncio.Queue` of spectrum-ingest/app.py
-- and python-processor/app/services/anomaly/pipeline.py. The two share these operations.
pub mod Laws
use diploma_munka.Prelude.{
  ℕ, suc, ◌+◌, ◌-◌, ◌≤◌, ◌<◌, ◌≡◌, refl, Bool, ◌&&◌, Option, none, some, List, [], ◌∷◌, ◌++◌, arith,
  ltb, leb, ◌==◌, if◌then◌else◌, length, length-append,
}

-- `unfinished` is the count that `task_done` lowers.
pub record Channel {ℓ} (A : Type ℓ) : Type ℓ where
  pub items : List A
  pub maxsize : ℕ
  pub unfinished : ℕ

module _ {ℓ} {A : Type ℓ} where
  abbrev pub qsize : Channel A → ℕ
  qsize q = length q.items

  -- A `maxsize` of 0 means no bound.
  abbrev pub full : Channel A → Bool
  full q = ltb 0 q.maxsize && leb q.maxsize (qsize q)

  -- `none` is the exception Full.
  unfoldable pub put_nowait : A → Channel A → Option (Channel A)
  put_nowait x q =
      if full q
      then none
      else some (record q { items = q.items ++ x ∷ []; unfinished = q.unfinished + 1 })

  unfoldable pub pop_front : Channel A → List A → Option (A × Channel A)
  pop_front q [] = none
  pop_front q (x ∷ xs) = some (x, record q { items = xs })

  -- `none` is the exception Empty.
  unfoldable pub get_nowait : Channel A → Option (A × Channel A)
  unfolding pop_front
  get_nowait q = pop_front q q.items

  -- `none` is the ValueError of a call too many.
  unfoldable pub task_done : Channel A → Option (Channel A)
  task_done q =
      if q.unfinished == 0 then none else some (record q { unfinished = q.unfinished - 1 })

module _ {ℓ} {A : Type ℓ} where
  abbrev pub empty_channel : ℕ → Channel A
  empty_channel n = record { items = []; maxsize = n; unfinished = 0 }
