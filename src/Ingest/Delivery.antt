-- ===== src/Ingest/Delivery.antt =====
-- What each browser's queue of spectrum-ingest/app.py holds, and what a slow browser loses.
use diploma_munka.Prelude.{
  ℕ, zero, suc, ◌+◌, ◌≤◌, ◌<◌, ◌≡◌, refl, sym, ap, ◌∙◌, Option-cases, inl, inr, ◌⊎◌, none, some,
  List, [], ◌∷◌, ◌++◌, arith, length, length-append, drop, dec_lt, append-nil, append_assoc,
}
use mathlib.Core.Path.{subst}
use mathlib.Core.List.{Sublist}
use mathlib.Core.List.Sublist
use diploma_munka.Channel.{Channel, empty_channel, qsize, put_nowait, get_nowait}
use diploma_munka.Channel.Laws.{get_nowait-some}
use diploma_munka.Ingest.Fanout.{drop_oldest, make_room, put_suppressed, deliver}

module _ {ℓ} {A : Type ℓ} where
  deliver_short :
      (x : A) (q : Channel A)
      → qsize q < q.maxsize
      → ((deliver x q).0.items ≡ q.items ++ x ∷ [])
        × ((deliver x q).0.maxsize ≡ q.maxsize)
        × ((deliver x q).1 ≡ 0)
  unfolding deliver make_room drop_oldest put_suppressed put_nowait get_nowait
  deliver_short x q h = ground arith

  deliver_full :
      (x y : A) (ys : List A) (q : Channel A)
      → q.items ≡ y ∷ ys
      → q.maxsize ≡ suc (length ys)
      → ((deliver x q).0.items ≡ ys ++ x ∷ [])
        × ((deliver x q).0.maxsize ≡ q.maxsize)
        × ((deliver x q).1 ≡ 1)
  unfolding deliver make_room drop_oldest put_suppressed put_nowait get_nowait
  deliver_full x y ys q e h = ground arith

  -- What a delivery must do to a queue.
  pub record Delivered (x : A) (q : Channel A) (result : Channel A × ℕ) : Type ℓ where
    pub items : result.0.items ≡ drop result.1 q.items ++ x ∷ []
    pub capacity : result.0.maxsize ≡ q.maxsize
    pub bounded : qsize result.0 ≤ q.maxsize
    pub lost : result.1 ≤ qsize q
    pub counted : qsize result.0 + result.1 ≡ qsize q + 1
    pub only_when_full : (result.1 ≡ 0) ⊎ (qsize q ≡ q.maxsize)

  deliver_at :
      (x : A) (q : Channel A) (l : List A)
      → q.items ≡ l
      → 0 < q.maxsize
      → qsize q ≤ q.maxsize
      → Delivered x q (deliver x q)
  deliver_at x q [] e h k =
      let (items, capacity, lost) = deliver_short x q (rw e h) in
      record {
        items = rw (lost, items);
        capacity = capacity;
        bounded = rw (items, e) h;
        lost = rw (lost, e) (omega arith);
        counted = rw (items, lost, e) refl;
        only_when_full = inl lost;
      }
  deliver_at x q (y ∷ ys) e h k = elim (dec_lt (qsize q) q.maxsize) [
    | yes short ↦
        let (items, capacity, lost) = deliver_short x q short in
        record {
          items = rw (lost, items);
          capacity = capacity;
          bounded = rw items (omega (arith, length-append q.items (x ∷ [])));
          lost = rw lost (omega arith);
          counted = rw (items, lost) (omega (arith, length-append q.items (x ∷ [])));
          only_when_full = inl lost;
        }
    | no long ↦
        let size : qsize q ≡ suc (length ys) = ap length e in
        let (items, capacity, lost) = deliver_full x y ys q e (omega arith) in
        record {
          items = rw (lost, items, e);
          capacity = capacity;
          bounded = rw items (omega (arith, length-append ys (x ∷ [])));
          lost = rw lost (omega arith);
          counted = rw (items, lost) (omega (arith, length-append ys (x ∷ [])));
          only_when_full = inr (omega arith);
        }
  ]

  -- A delivery to a queue of positive capacity that is not over it: the newest entry always comes in
  -- at the end, nothing is lost while there is room, and else exactly the oldest entry is, which is
  -- counted; the queue keeps its capacity and stays within it.
  pub deliver_lem :
      (x : A) (q : Channel A) → 0 < q.maxsize → qsize q ≤ q.maxsize → Delivered x q (deliver x q)
  deliver_lem x q h k = deliver_at x q q.items refl h k

-- What happens to one browser: a payload is offered to its queue, or its coroutine takes one.
pub data ClientEvent {ℓ} (A : Type ℓ) : Type ℓ where
  offered : A → ClientEvent A
  takes : ClientEvent A

-- The queue of one browser, with what it has been sent and the number of its lost payloads.
pub record Session {ℓ} (A : Type ℓ) : Type ℓ where
  pub queue : Channel A
  pub sent : List A
  pub lost : ℕ

module _ {ℓ} {A : Type ℓ} where
  -- `await queue.get()` waits on an empty queue: then nothing happens.
  pub session_take : Session A → Session A
  session_take s = elim (get_nowait s.queue) [
    | none ↦ s
    | some (x, q) ↦ record s { queue = q; sent = s.sent ++ x ∷ [] }
  ]

  pub session_step : ClientEvent A → Session A → Session A
  session_step (offered x) s =
      let (q, dropped) = deliver x s.queue in record s { queue = q; lost = s.lost + dropped }
  session_step takes s = session_take s

  pub session_run : List (ClientEvent A) → Session A → Session A
  session_run [] s = s
  session_run (e ∷ es) s = session_run es (session_step e s)

  -- The payloads that were offered, in order.
  pub offers : List (ClientEvent A) → List A
  offers [] = []
  offers (offered x ∷ es) = x ∷ offers es
  offers (takes ∷ es) = offers es

  pub record Serves (s : Session A) (history : List A) (cap : ℕ) : Type ℓ where
    pub capacity : s.queue.maxsize ≡ cap
    pub bounded : qsize s.queue ≤ cap
    pub in_order : Sublist (s.sent ++ s.queue.items) history
    pub counted : length s.sent + qsize s.queue + s.lost ≡ length history

  drop-sublist : (n : ℕ) (xs : List A) → Sublist (drop n xs) xs
  drop-sublist zero xs = Sublist.refl xs
  drop-sublist (suc n) [] = Sublist.refl []
  drop-sublist (suc n) (x ∷ xs) = Sublist.cons x (drop-sublist n xs)

  offered-Serves :
      (x : A) (s : Session A) (h : List A) {cap : ℕ}
      → 0 < cap
      → Serves s h cap
      → Serves (session_step (offered x) s) (h ++ x ∷ []) cap
  unfolding session_step
  offered-Serves x s h pos v =
      let d =
        deliver_lem x s.queue (omega (arith, v.capacity)) (omega (arith, v.capacity, v.bounded)) in
      record {
        capacity = d.capacity ∙ v.capacity;
        bounded = omega (arith, d.bounded, v.capacity);
        in_order =
            subst (λ l. Sublist l (h ++ x ∷ []))
              (append_assoc s.sent (drop (deliver x s.queue).1 s.queue.items) (x ∷ [])
                ∙ ap (λ l. s.sent ++ l) (sym d.items))
              (Sublist.append
                (Sublist.trans
                  (Sublist.append (Sublist.refl s.sent)
                    (drop-sublist (deliver x s.queue).1 s.queue.items))
                  v.in_order)
                (Sublist.refl (x ∷ [])));
        counted = omega (arith, d.counted, v.counted, length-append h (x ∷ []));
      }

  takes-Serves :
      (s : Session A) (h : List A) {cap : ℕ} → Serves s h cap → Serves (session_step takes s) h cap
  unfolding session_step session_take
  takes-Serves s h {cap} v = elim (Option-cases (get_nowait s.queue)) [
    | inl e ↦ rw (e, session_take) v
    | inr ((x, q), e) ↦
        let (items, size, capacity, _) = get_nowait-some s.queue e in
        rw (e, session_take)
          (record {
            capacity = capacity ∙ v.capacity;
            bounded = omega (arith, size, v.bounded);
            in_order =
                subst (λ l. Sublist l h)
                  (ap (λ l. s.sent ++ l) items ∙ sym (append_assoc s.sent (x ∷ []) q.items))
                  v.in_order;
            counted = omega (arith, v.counted, size, length-append s.sent (x ∷ []));
          })
  ]

  run-Serves :
      (es : List (ClientEvent A)) (s : Session A) (h : List A) {cap : ℕ}
      → 0 < cap
      → Serves s h cap
      → Serves (session_run es s) (h ++ offers es) cap
  unfolding session_run offers
  run-Serves [] s h pos v = rw append-nil v
  run-Serves (offered x ∷ es) s h {cap} pos v =
      subst (λ l. Serves (session_run es (session_step (offered x) s)) l cap)
        (append_assoc h (x ∷ []) (offers es))
        (run-Serves es (session_step (offered x) s) (h ++ x ∷ []) pos (offered-Serves x s h pos v))
  run-Serves (takes ∷ es) s h pos v =
      run-Serves es (session_step takes s) h pos (takes-Serves s h v)

  -- A browser that connects to an empty queue of positive size, whatever the order of payloads and of
  -- its own reads: what it has been sent and what is queued for it is, in order, a part of the
  -- payloads offered; the rest is counted as lost, and the queue never exceeds its size.
  pub session_run-Serves :
      (es : List (ClientEvent A)) (cap : ℕ)
      → 0 < cap
      → Serves
          (session_run es (record { queue = empty_channel cap; sent = []; lost = 0 }))
          (offers es)
          cap
  session_run-Serves es cap pos =
      run-Serves es (record { queue = empty_channel cap; sent = []; lost = 0 }) [] pos
        (record {
          capacity = refl;
          bounded = omega arith;
          in_order = Sublist.refl [];
          counted = omega arith;
        })
