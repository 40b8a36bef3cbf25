-- ===== src/Consumer/Process.antt =====
-- ConsumerBase.process: all rounds, and the order of delivery.
use mathlib.Core.List.{append-nil, append_assoc}
use evgo.Shared.{
  ℕ, ◌+◌, ◌≤◌, ◌≡◌, sym, ap, ◌∙◌, ◌≢◌, inl, false, some, List, [], ◌∷◌, ◌++◌, map, Eq, length,
  arith, All,
}
use evgo.Queue.Interface.{RandomAccessQueue}
use evgo.Consumer.{Moment, State, observe, drain, place, try_next, process}
use evgo.Consumer.Loop.{drain_stable, drain_exit, max_queue_depth-drain}
use evgo.Consumer.Delivery.{
  max_queue_depth-place, pending, HasRoom, Kept, Absent, drain-pending, pending-observe,
  place-pending, place-IsValid, place-absent, tail-Absent, tail-le,
}

module _ {K M : Type 0} ⦃e : Eq K⦄ (rq : RandomAccessQueue K M) (key : M → K) where
  -- The state `t` is `s` with one more message behind all that was pending.
  pub record Advances (s t : State rq key) (m : M) : Type 0 where
    pub valid : rq.IsValid t.queue
    pub limit : t.max_queue_depth ≡ s.max_queue_depth
    pub order : pending rq key t ≡ pending rq key s ++ m ∷ []
    pub absent :
        (k : K) → key m ≢ k → Absent rq key k (rq.view s.queue) → Absent rq key k (rq.view t.queue)

  module _ (env : ℕ → Moment) (live : (n : ℕ) → (env n).closed ≡ false) (s : State rq key)
      (v : rq.IsValid s.queue) where
    abbrev fuel : ℕ
    fuel = rq.depth s.queue + 1

    -- the state in which the new message is placed
    abbrev drained : State rq key
    drained = let (t, ready, i) = drain rq key env fuel 0 s in observe rq key (env (i + 1)) t

    drained-HasRoom : HasRoom rq key s → HasRoom rq key drained
    drained-HasRoom room = ground (
      arith,
      max_queue_depth-drain rq key env fuel 0 s,
      drain_stable rq key env (λ xs. length xs ≤ length (rq.view s.queue)) (tail-le rq key _) fuel 0
          s v (omega arith),
    )

    drained-Absent :
        (k : K) → Absent rq key k (rq.view s.queue) → Absent rq key k (rq.view drained.queue)
    drained-Absent k h =
        drain_stable rq key env (Absent rq key k) (tail-Absent rq key k) fuel 0 s v h

    drained-Kept : Kept rq key s drained
    drained-Kept =
        let (t, ready, i) = drain rq key env fuel 0 s in
        let (v', kept) = drain-pending rq key env fuel 0 s v in
        (v', pending-observe rq key (env (i + 1)) t ∙ kept)

    try_next-place :
        (m : M)
        → try_next rq key env s (some m) ≡ place rq key drained (drain rq key env fuel 0 s).1 m
    unfolding try_next
    try_next-place m = rw (live ((drain rq key env fuel 0 s).2 + 1), try_next)

    -- On a consumer that is not closed, a message for which the backlog has room and whose key does
    -- not wait there comes behind all that is pending, and what is pending keeps its order.
    pub try_next-Advances :
        (m : M)
        → HasRoom rq key s
        → Absent rq key (key m) (rq.view s.queue)
        → Advances s (try_next rq key env s (some m)) m
    try_next-Advances m room absent =
        let ready = (drain rq key env fuel 0 s).1 in
        let (v', kept) = drained-Kept in
        let room' = drained-HasRoom room in
        let exit = drain_exit rq key env fuel 0 s v (omega (arith, rq.depth-view s.queue v)) live in
        rw (try_next-place m) (record {
          valid = place-IsValid rq key drained ready m v';
          limit =
              max_queue_depth-place rq key drained ready m
              ∙ max_queue_depth-drain rq key env fuel 0 s;
          order =
              place-pending rq key drained ready m v' room' (drained-Absent (key m) absent) exit
              ∙ ap (λ xs. xs ++ m ∷ []) kept;
          absent = λ k other h.
              place-absent rq key drained ready m k v' room' other (drained-Absent k h);
        })

  -- No two of the messages have one key, and none has a key that waits in the backlog.
  abbrev pub AreFresh : State rq key → List M → Type 0
  AreFresh s [] = Unit {0}
  AreFresh s (m ∷ ms) =
      Absent rq key (key m) (rq.view s.queue) × All (λ m'. key m ≢ key m') ms × AreFresh s ms

  Advances-AreFresh :
      (s t : State rq key) (m : M) (ms : List M)
      → Advances s t m
      → All (λ m'. key m ≢ key m') ms
      → AreFresh s ms
      → AreFresh t ms
  Advances-AreFresh s t m [] a other h = tt
  Advances-AreFresh s t m (m' ∷ ms) a other h =
      (a.absent (key m') other.0 h.0, h.1, Advances-AreFresh s t m ms a other.1 h.2)

  -- A consumer without a limit on its backlog, that is never found closed and whose queue is valid,
  -- hands messages with fresh and distinct keys on in the order of their arrival: what was sent and
  -- still waits is what was pending before, followed by the new messages.
  pub process-pending :
      (env : ℕ → ℕ → Moment) (round : ℕ) (ms : List M) (s : State rq key)
      → ((r n : ℕ) → (env r n).closed ≡ false)
      → rq.IsValid s.queue
      → s.max_queue_depth ≡ 0
      → AreFresh s ms
      → pending rq key (process rq key env round (map some ms) s) ≡ pending rq key s ++ ms
  unfolding process
  process-pending env round [] s live v unlimited fresh = sym (append-nil _)
  process-pending env round (m ∷ ms) s live v unlimited fresh =
      let t = try_next rq key (env round) s (some m) in
      let a = try_next-Advances (env round) (live round) s v m (inl unlimited) fresh.0 in
      process-pending env (round + 1) ms t live a.valid (a.limit ∙ unlimited)
        (Advances-AreFresh s t m ms a fresh.1 fresh.2)
      ∙ ap (λ xs. xs ++ ms) a.order
      ∙ append_assoc (pending rq key s) (m ∷ []) ms
