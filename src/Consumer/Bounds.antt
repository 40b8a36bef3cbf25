-- ===== src/Consumer/Bounds.antt =====
-- ConsumerBase.process: the limit on its backlog.
use evgo.Shared.{
  ℕ, suc, ◌+◌, ◌≤◌, ◌<◌, ◌≡◌, ◌∙◌, ◌≢◌, inl, inr, Bool, true, false, Option, none, some, List, [],
  ◌∷◌, Eq, length, arith, Bool-cases, nat_beq, leb, not, ◌&&◌, length-put-le,
}
use evgo.Queue.Spec
use evgo.Queue.Interface.{RandomAccessQueue}
use evgo.Consumer.{Moment, State, observe, drain, keep, place, try_next, process, push}
use evgo.Consumer.Loop.{drain_stable, max_queue_depth-drain}
use evgo.Consumer.Delivery.{drain-pending, keep-IsValid, tail-le}

module _ {K M : Type 0} ⦃e : Eq K⦄ (rq : RandomAccessQueue K M) (key : M → K) where
  -- The backlog is a valid queue, no longer than the limit, if there is one.
  pub record IsBounded (s : State rq key) : Type 0 where
    pub valid : rq.IsValid s.queue
    pub bounded : s.max_queue_depth ≢ 0 → length (rq.view s.queue) ≤ s.max_queue_depth

  length-tail :
      (xs : List (K × M)) {n : ℕ} → 0 < n → length xs ≤ n → suc (length (Spec.tail xs)) ≤ n
  length-tail [] pos h = pos
  length-tail (x ∷ xs) pos h = h

  keep-bounded :
      (s : State rq key) (m : M)
      → IsBounded s
      → s.max_queue_depth ≢ 0
      → length (rq.view (keep rq key s m).queue) ≤ s.max_queue_depth
  unfolding keep
  keep-bounded s m b limited =
      elim (Bool-cases
        (not (nat_beq s.max_queue_depth 0) && leb s.max_queue_depth (rq.depth s.queue))) [
          | inl full ↦
              let v' = rq.drop_front-IsValid s.queue b.valid in
              rw
                (
                  full,
                  rq.view-enqueue (rq.drop_front s.queue) (key m) m v',
                  rq.view-drop_front s.queue b.valid,
                )
                (omega (
                  arith,
                  length-put-le (key m) m (Spec.tail (rq.view s.queue)),
                  length-tail (rq.view s.queue) {n = s.max_queue_depth} (omega arith)
                      (b.bounded limited),
                ))
          | inr room ↦
              rw (room, rq.view-enqueue s.queue (key m) m b.valid)
                (let small : length (rq.view s.queue) < s.max_queue_depth =
                    ground (arith, rq.depth-view s.queue b.valid) in
                  omega (arith, length-put-le (key m) m (rq.view s.queue)))
        ]

  keep-IsBounded : (s : State rq key) (m : M) → IsBounded s → IsBounded (keep rq key s m)
  keep-IsBounded s m b = record {
    valid = keep-IsValid rq key s m b.valid;
    bounded = unfold keep in λ limited. keep-bounded s m b limited;
  }

  place-IsBounded :
      (s : State rq key) (ready : Bool) (m : M) → IsBounded s → IsBounded (place rq key s ready m)
  unfolding place
  place-IsBounded s false m b = keep-IsBounded s m b
  place-IsBounded s true m b = elim (Bool-cases (push s.feeder m).1) [
    | inl pushed ↦ rw (pushed, place) (record { valid = b.valid; bounded = b.bounded })
    | inr refused ↦
        rw (refused, place)
          (keep-IsBounded (record s { feeder = (push s.feeder m).0 }) m
            (record { valid = b.valid; bounded = b.bounded }))
  ]

  -- A round of the consumer's goroutine, with or without a message, keeps the backlog valid and
  -- within its limit, whatever other goroutines do meanwhile.
  pub try_next-IsBounded :
      (env : ℕ → Moment) (s : State rq key) (w : Option M)
      → IsBounded s
      → IsBounded (try_next rq key env s w)
  unfolding try_next
  try_next-IsBounded env s w b = go w
    where
      t : State rq key × Bool × ℕ
      t = drain rq key env (rq.depth s.queue + 1) 0 s

      limit : t.0.max_queue_depth ≡ s.max_queue_depth
      limit = max_queue_depth-drain rq key env (rq.depth s.queue + 1) 0 s

      shorter : length (rq.view t.0.queue) ≤ length (rq.view s.queue)
      shorter =
          drain_stable rq key env (λ xs. length xs ≤ length (rq.view s.queue)) (tail-le rq key _)
            (rq.depth s.queue + 1) 0 s b.valid (omega arith)

      b' : IsBounded (observe rq key (env (t.2 + 1)) t.0)
      b' = record {
        valid = (drain-pending rq key env (rq.depth s.queue + 1) 0 s b.valid).0;
        bounded = λ limited. omega (arith, b.bounded (λ z. limited (limit ∙ z)), shorter, limit);
      }

      go : (w : Option M) → IsBounded (try_next rq key env s w)
      go none = b'
      go (some m) = elim (Bool-cases (env (t.2 + 1)).closed) [
        | inl closed ↦ rw (closed, try_next) b'
        | inr live ↦
            rw (live, try_next) (place-IsBounded (observe rq key (env (t.2 + 1)) t.0) t.1 m b')
      ]

  -- Whatever the consumer receives and whenever it is closed, a backlog that is a valid queue
  -- within MAX_QUEUE_DEPTH, if that is not 0, stays one.
  pub process-IsBounded :
      (env : ℕ → ℕ → Moment) (round : ℕ) (ws : List (Option M)) (s : State rq key)
      → IsBounded s
      → IsBounded (process rq key env round ws s)
  unfolding process
  process-IsBounded env round [] s b = b
  process-IsBounded env round (w ∷ ws) s b =
      process-IsBounded env (round + 1) ws (try_next rq key (env round) s w)
        (try_next-IsBounded (env round) s w b)
