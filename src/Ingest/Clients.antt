-- ===== src/Ingest/Clients.antt =====
-- The set of connected browsers of spectrum-ingest/app.py: what a fan-out does to all of them, and
-- that no event leaves a queue over its bound or the count of browsers wrong.
use diploma_munka.Prelude.{
  ℕ, suc, ◌+◌, ◌≤◌, ◌<◌, ◌≡◌, refl, sym, ap, ◌∙◌, Bool-cases, inl, inr, Option, none, some, List,
  [], ◌∷◌, ◌++◌, map, arith, length, drop, All, ◌==◌, String, if◌then◌else◌,
}
use diploma_munka.Channel.{Channel, qsize, put_nowait, get_nowait}
use diploma_munka.Ingest.Fanout.{Client, deliver, fan_out, put_suppressed}
use diploma_munka.Ingest.Delivery.{deliver_lem}
use diploma_munka.Ingest.State.{IngestState, publish}
use diploma_munka.Ingest.Source.{greeted, discard, connect, disconnect}

module _ {ℓ} {A : Type ℓ} where
  -- A queue of positive size that is within it.
  abbrev pub WellKept : Client A → Type 0
  WellKept c = (0 < c.queue.maxsize) × (qsize c.queue ≤ c.queue.maxsize)

  abbrev pub total_size : List (Client A) → ℕ
  total_size [] = 0
  total_size (c ∷ cs) = qsize c.queue + total_size cs

  abbrev pub EndsWith : A → Client A → Type ℓ
  EndsWith x c = (older : List A) × (c.queue.items ≡ older ++ x ∷ [])

  -- A fan-out keeps every browser, under its identity and in place; each queue stays within its
  -- size and ends with the new payload; and the payloads counted as dropped are exactly the
  -- ones that left the queues.
  pub record FannedOut (x : A) (cs : List (Client A)) (result : List (Client A) × ℕ) : Type ℓ where
    pub kept : All WellKept result.0
    pub newest : All (EndsWith x) result.0
    pub same : map (λ c. c.identity) result.0 ≡ map (λ c. c.identity) cs
    pub counted : total_size result.0 + result.1 ≡ total_size cs + length cs

  pub fan_out_lem : (x : A) (cs : List (Client A)) → All WellKept cs → FannedOut x cs (fan_out x cs)
  unfolding fan_out
  fan_out_lem x [] h = record { kept = tt; newest = tt; same = refl; counted = omega arith }
  fan_out_lem x (c ∷ cs) h =
      let d = deliver_lem x c.queue h.0.0 h.0.1 in
      let rest = fan_out_lem x cs h.1 in
      record {
        kept =
            ((omega (arith, d.capacity, h.0.0), omega (arith, d.capacity, d.bounded)), rest.kept);
        newest = ((drop (deliver x c.queue).1 c.queue.items, d.items), rest.newest);
        same = ap (◌∷◌ c.identity) rest.same;
        counted = omega (arith, d.counted, rest.counted);
      }

  length-fan_out : (x : A) (cs : List (Client A)) → length (fan_out x cs).0 ≡ length cs
  unfolding fan_out
  length-fan_out x [] = refl
  length-fan_out x (c ∷ cs) = ap suc (length-fan_out x cs)

  discard-WellKept : (i : ℕ) (cs : List (Client A)) → All WellKept cs → All WellKept (discard i cs)
  unfolding discard
  discard-WellKept i [] h = tt
  discard-WellKept i (c ∷ cs) h = elim (Bool-cases (c.identity == i)) [
    | inl e ↦ rw e (discard-WellKept i cs h.1)
    | inr n ↦ rw n (h.0, discard-WellKept i cs h.1)
  ]

module _ {ℓ} {A : Type ℓ} where
  -- `await queue.get()` of the browsers under a number; an empty queue waits.
  abbrev pub left_over : Channel A → Option (A × Channel A) → Channel A
  left_over q none = q
  left_over q (some (x, rest)) = rest

  pub read_from : ℕ → List (Client A) → List (Client A)
  read_from i [] = []
  read_from i (c ∷ cs) =
      (if c.identity == i then record c { queue = left_over c.queue (get_nowait c.queue) } else c)
      ∷ read_from i cs

  pub length-read_from : (i : ℕ) (cs : List (Client A)) → length (read_from i cs) ≡ length cs
  unfolding read_from
  length-read_from i [] = refl
  length-read_from i (c ∷ cs) = ap suc (length-read_from i cs)

  left_over-WellKept :
      (q : Channel A)
      → (0 < q.maxsize) × (qsize q ≤ q.maxsize)
      → (0 < (left_over q (get_nowait q)).maxsize)
        × (qsize (left_over q (get_nowait q)) ≤ (left_over q (get_nowait q)).maxsize)
  unfolding get_nowait
  left_over-WellKept q h = (ground arith, ground arith)

  pub read_from-WellKept :
      (i : ℕ) (cs : List (Client A)) → All WellKept cs → All WellKept (read_from i cs)
  unfolding read_from
  read_from-WellKept i [] h = tt
  read_from-WellKept i (c ∷ cs) h = elim (Bool-cases (c.identity == i)) [
    | inl e ↦ rw e (left_over-WellKept c.queue h.0, read_from-WellKept i cs h.1)
    | inr n ↦ rw n (h.0, read_from-WellKept i cs h.1)
  ]

-- The count of browsers is right, and no queue is over its size.
pub record IsSound {F : Type 0} (s : IngestState F) : Type 0 where
  pub kept : All WellKept s.clients
  pub counted : s.metrics.connected_clients ≡ length s.clients

greeted-WellKept :
    (n : ℕ) (o : Option String)
    → 0 < n
    → (0 < (greeted n o).maxsize) × (qsize (greeted n o) ≤ (greeted n o).maxsize)
unfolding put_suppressed put_nowait
greeted-WellKept n none h = (h, omega arith)
greeted-WellKept n (some p) h = (ground arith, ground arith)

module _ {F : Type 0} where
  pub publish-IsSound : (p : String) (s : IngestState F) → IsSound s → IsSound (publish p s)
  unfolding publish
  publish-IsSound p s h = record {
    kept = (fan_out_lem p s.clients h.kept).kept;
    counted = h.counted ∙ sym (length-fan_out p s.clients);
  }

  pub connect-IsSound : (n i : ℕ) (s : IngestState F) → 0 < n → IsSound s → IsSound (connect n i s)
  unfolding connect
  connect-IsSound n i s pos h = record {
    kept = (greeted-WellKept n s.last_payload pos, h.kept);
    counted = refl;
  }

  pub disconnect-IsSound : (i : ℕ) (s : IngestState F) → IsSound s → IsSound (disconnect i s)
  unfolding disconnect
  disconnect-IsSound i s h = record { kept = discard-WellKept i s.clients h.kept; counted = refl }
