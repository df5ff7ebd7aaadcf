-- ===== src/Ingest/Fanout.antt =====
-- `publish` and the fan-out of `datagram_received` in spectrum-ingest/app.py: one bounded queue for
-- each connected browser, the oldest entry of a full one making room for the newest.
use diploma_munka.Prelude.{ℕ, ◌+◌, none, some, List, [], ◌∷◌, if◌then◌else◌}
use diploma_munka.Channel.{Channel, full, put_nowait, get_nowait}

module _ {ℓ} {A : Type ℓ} where
  -- `if queue.full():` the oldest entry is taken out and counted; QueueEmpty is suppressed.
  unfoldable pub drop_oldest : Channel A → Channel A × ℕ
  drop_oldest q = elim (get_nowait q) [ none ↦ (q, 0) | some (oldest, q') ↦ (q', 1) ]

  unfoldable pub make_room : Channel A → Channel A × ℕ
  make_room q = if full q then drop_oldest q else (q, 0)

  -- QueueFull is suppressed.
  unfoldable pub put_suppressed : A → Channel A → Channel A
  put_suppressed x q = elim (put_nowait x q) [ none ↦ q | some q' ↦ q' ]

  unfoldable pub deliver : A → Channel A → Channel A × ℕ
  deliver x q = let (room, dropped) = make_room q in (put_suppressed x room, dropped)

-- A connected browser: its queue, under the identity by which the set of queues holds it.
pub record Client {ℓ} (A : Type ℓ) : Type ℓ where
  pub identity : ℕ
  pub queue : Channel A

module _ {ℓ} {A : Type ℓ} where
  -- The loop over all queues, with the number of entries dropped.
  unfoldable pub fan_out : A → List (Client A) → List (Client A) × ℕ
  fan_out x [] = ([], 0)
  fan_out x (c ∷ cs) =
      let (q, dropped) = deliver x c.queue in
      let (rest, others) = fan_out x cs in (record c { queue = q } ∷ rest, dropped + others)
