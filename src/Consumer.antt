-- ===== src/Consumer.antt =====
-- message_queue/feeder.go and consumer.go: the consumer's goroutine moves messages from its work
-- channel to the feeder's channel, through a backlog queue when the feeder is full. What other
-- goroutines do between two steps of it enters as an environment: what the `closed` flag reads,
-- and how many messages the subscriber has received from the feeder's channel.
pub mod Delivery
pub mod Process
pub mod Loop
pub mod Bounds
use Prim.Native.Nat.{min}
use evgo.Shared.{
  ℕ, zero, suc, ◌+◌, ◌-◌, Bool, true, false, Option, none, some, List, [], ◌∷◌, ◌++◌, Eq, length,
  if◌then◌else◌, ltb, leb, nat_beq, not, ◌&&◌, ◌||◌,
}
use evgo.Queue.Interface.{RandomAccessQueue}

-- A Go channel by its history: what was sent, and how much of it was received. What is sent and
-- not received is in the buffer.
pub record Channel (M : Type 0) : Type 0 where
  pub sent : List M
  pub received : ℕ
  pub capacity : ℕ

-- At most one of the channels of FeederBase is made, the typed one (`chV`) or the untyped (`ch`).
pub data FeederBase (M : Type 0) : Type 0 where
  untyped : Channel M → FeederBase M
  typed : Channel M → FeederBase M
  no_channel : FeederBase M

-- `select { case ch <- object: true; default: false }`
unfoldable pub try_send : {M : Type 0} → Channel M → M → Channel M × Bool
try_send ch object =
    if ltb (length ch.sent - ch.received) ch.capacity
    then (record ch { sent = ch.sent ++ object ∷ [] }, true)
    else (ch, false)

unfoldable pub push : {M : Type 0} → FeederBase M → M → FeederBase M × Bool
unfolding try_send
push (untyped ch) object = let (ch', done) = try_send ch object in (untyped ch', done)
push (typed ch) object = let (ch', done) = try_send ch object in (typed ch', done)
push no_channel object = (no_channel, false)

abbrev pub sent : {M : Type 0} → FeederBase M → List M
sent (untyped ch) = ch.sent
sent (typed ch) = ch.sent
sent no_channel = []

-- The subscriber's receives: `n` more messages leave the buffer.
unfoldable pub receive : {M : Type 0} → ℕ → FeederBase M → FeederBase M
receive n (untyped ch) = untyped (record ch { received = min (ch.received + n) (length ch.sent) })
receive n (typed ch) = typed (record ch { received = min (ch.received + n) (length ch.sent) })
receive n no_channel = no_channel

-- What the other goroutines have done when the loop makes its i-th step.
pub record Moment : Type 0 where
  pub closed : Bool
  pub receives : ℕ

module _ {K M : Type 0} ⦃e : Eq K⦄ (rq : RandomAccessQueue K M) (key : M → K) where
  pub record State : Type 0 where
    pub queue : rq.Q
    pub feeder : FeederBase M
    pub max_queue_depth : ℕ

  -- The moves of other goroutines become visible.
  abbrev pub observe : Moment → State → State
  observe now s = record s { feeder = receive now.receives s.feeder }

  -- The drain loop of `tryNext`: the state, `feederReady`, and the number of the moment it ended at.
  unfoldable pub drain : (ℕ → Moment) → ℕ → ℕ → State → State × Bool × ℕ
  drain env zero i s = (s, true, i)
  drain env (suc fuel) i s =
      let s = observe (env i) s in
      elim (env i).closed [
        | true ↦ (s, true, i)
        | false ↦ elim (rq.front s.queue) [
          | none ↦ (s, true, i)
          | some message ↦
              let (feeder', ready) = push s.feeder message in
              elim ready [
                | true ↦
                    drain env fuel (i + 1)
                      (record s { feeder = feeder'; queue = rq.drop_front s.queue })
                | false ↦ (record s { feeder = feeder' }, false, i)
              ]
        ]
      ]

  -- The new message goes to the backlog; a full backlog loses its front first.
  unfoldable pub keep : State → M → State
  keep s message =
      let full = not (nat_beq s.max_queue_depth 0) && leb s.max_queue_depth (rq.depth s.queue) in
      let queue' = if full then rq.drop_front s.queue else s.queue in
      record s { queue = rq.enqueue queue' (key message) message }

  -- After the drain loop, with a message to place: directly, or into the backlog.
  unfoldable pub place : State → Bool → M → State
  place s ready message = elim ready [
    | true ↦
        let (feeder', done) = push s.feeder message in
        let s' = record s { feeder = feeder' } in elim done [ true ↦ s' | false ↦ keep s' message ]
    | false ↦ keep s message
  ]

  -- One round of `process`: `tryNext(wrapper)`; `none` is a wrapper without a message. The drain
  -- loop makes at most one pass for each message of the backlog, and one more.
  unfoldable pub try_next : (ℕ → Moment) → State → Option M → State
  try_next env s wrapper =
      let (s, ready, i) = drain env (rq.depth s.queue + 1) 0 s in
      let s = observe (env (i + 1)) s in
      elim wrapper [
        | none ↦ s
        | some message ↦ elim (env (i + 1)).closed [ true ↦ s | false ↦ place s ready message ]
      ]

  -- The consumer's goroutine over the wrappers that it reads from its work channel, until it ends. What it
  -- does then, to clear the queue and close the feeder, is not modelled.
  unfoldable pub process : (ℕ → ℕ → Moment) → ℕ → List (Option M) → State → State
  process env round [] s = s
  process env round (w ∷ ws) s = process env (round + 1) ws (try_next (env round) s w)
