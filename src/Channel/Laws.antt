-- ===== src/Channel/Laws.antt =====
-- What each channel operation does to the length, the bound and the unfinished count.
use diploma_munka.Prelude.{◌+◌, ◌≤◌, ◌<◌, ◌≡◌, some, none, [], ◌∷◌, ◌++◌, arith, length-append}
use diploma_munka.Channel.{Channel, qsize, put_nowait, get_nowait, task_done}

module _ {ℓ} {A : Type ℓ} where
  -- The entries after a put; the capacity is kept.
  pub put_nowait-some :
      (x : A) (q : Channel A) {q' : Channel A}
      → put_nowait x q ≡ some q'
      → (q'.items ≡ q.items ++ x ∷ [])
        × (qsize q' ≡ qsize q + 1)
        × (q'.maxsize ≡ q.maxsize)
        × (q'.unfinished ≡ q.unfinished + 1)
        × (0 < q.maxsize → qsize q < q.maxsize)
  unfolding put_nowait
  put_nowait-some x q h = ground (arith, length-append q.items (x ∷ []))

  pub put_nowait-none :
      (x : A) (q : Channel A) → put_nowait x q ≡ none → (0 < q.maxsize) × (q.maxsize ≤ qsize q)
  unfolding put_nowait
  put_nowait-none x q h = ground arith

  pub put_nowait_short :
      (x : A) (q : Channel A)
      → qsize q < q.maxsize
      → put_nowait x q
        ≡ some (record {
          items = q.items ++ x ∷ [];
          maxsize = q.maxsize;
          unfinished = q.unfinished + 1;
        })
  unfolding put_nowait
  put_nowait_short x q h = ground arith

  pub put_nowait_long :
      (x : A) (q : Channel A) → 0 < q.maxsize → q.maxsize ≤ qsize q → put_nowait x q ≡ none
  unfolding put_nowait
  put_nowait_long x q h k = ground arith

  pub get_nowait-some :
      (q : Channel A) {x : A} {q' : Channel A}
      → get_nowait q ≡ some (x, q')
      → (q.items ≡ x ∷ q'.items)
        × (qsize q ≡ qsize q' + 1)
        × (q'.maxsize ≡ q.maxsize)
        × (q'.unfinished ≡ q.unfinished)
  unfolding get_nowait
  get_nowait-some q h = ground arith

  pub get_nowait-none : (q : Channel A) → get_nowait q ≡ none → qsize q ≡ 0
  unfolding get_nowait
  get_nowait-none q h = ground arith

  pub task_done-some :
      (q : Channel A) {q' : Channel A}
      → task_done q ≡ some q'
      → (q'.items ≡ q.items) × (q'.maxsize ≡ q.maxsize) × (q.unfinished ≡ q'.unfinished + 1)
  unfolding task_done
  task_done-some q h = ground arith

  pub task_done-none : (q : Channel A) → task_done q ≡ none → q.unfinished ≡ 0
  unfolding task_done
  task_done-none q h = ground arith
