-- ===== src/Consumer/Delivery.antt =====
-- ConsumerBase.process: one round, and the messages that are pending before and after it.
use mathlib.Core.Path.{ap₂}
use mathlib.Core.List.{append-nil, append_assoc, map-append}
use evgo.Shared.{put_new, nat_beq, leb, not, ◌&&◌, get-put}
use evgo.Shared.{
  ℕ, zero, suc, ◌+◌, ◌≤◌, ◌<◌, ◌≡◌, refl, sym, ap, ◌∙◌, ◌≢◌, ◌⊎◌, inl, inr, Bool, true, false, none,
  some, List, [], ◌∷◌, ◌++◌, map, Eq, length, get, put, arith, Bool-cases, Option-cases,
}
use evgo.Queue.Spec
use evgo.Queue.Interface.{RandomAccessQueue}
use evgo.Consumer.{
  FeederBase, untyped, typed, no_channel, push, sent, receive, Moment, State, observe, drain, keep,
  place,
}

sent-receive : {M : Type 0} (n : ℕ) (f : FeederBase M) → sent (receive n f) ≡ sent f
unfolding receive
sent-receive n (untyped ch) = refl
sent-receive n (typed ch) = refl
sent-receive n no_channel = refl

-- What `Push` does to the history of the channel.
sent-push-true :
    {M : Type 0} (f : FeederBase M) (m : M)
    → (push f m).1 ≡ true
    → sent (push f m).0 ≡ sent f ++ m ∷ []
unfolding push
sent-push-true (untyped ch) m h = ground arith
sent-push-true (typed ch) m h = ground arith
sent-push-true no_channel m h = ground arith

sent-push-false : {M : Type 0} (f : FeederBase M) (m : M) → (push f m).1 ≡ false → (push f m).0 ≡ f
unfolding push
sent-push-false (untyped ch) m h = ground arith
sent-push-false (typed ch) m h = ground arith
sent-push-false no_channel m h = ground arith

module _ {K M : Type 0} ⦃e : Eq K⦄ (rq : RandomAccessQueue K M) (key : M → K) where
  abbrev pub messages : List (K × M) → List M
  messages = map (λ x. x.1)

  -- All that was handed to the subscriber's channel, and then all that waits, in order.
  abbrev pub pending : State rq key → List M
  pending s = sent s.feeder ++ messages (rq.view s.queue)

  first_split :
      (xs : List (K × M)) {m : M}
      → Spec.first xs ≡ some m
      → messages xs ≡ m ∷ messages (Spec.tail xs)
  first_split [] h = cc
  first_split ((k, v) ∷ xs) h = cc

  -- One message moves from the front of the backlog to the channel.
  move_front :
      (s : State rq key) {m : M}
      → rq.IsValid s.queue
      → rq.front s.queue ≡ some m
      → (push s.feeder m).1 ≡ true
      → pending (record s { feeder = (push s.feeder m).0; queue = rq.drop_front s.queue })
        ≡ pending s
  move_front s {m} v front_m pushed =
      let split = first_split (rq.view s.queue) (sym (rq.front-view s.queue v) ∙ front_m) in
      rw (sent-push-true s.feeder m pushed, rq.view-drop_front s.queue v, append_assoc, split)

  pub pending-observe :
      (now : Moment) (s : State rq key) → pending (observe rq key now s) ≡ pending s
  pending-observe now s =
      ap (λ xs. xs ++ messages (rq.view s.queue)) (sent-receive now.receives s.feeder)

  abbrev pub Kept : State rq key → State rq key → Type 0
  Kept s t = rq.IsValid t.queue × (pending t ≡ pending s)

  -- The drain loop keeps the order of what is pending.
  pub drain-pending :
      (env : ℕ → Moment) (fuel i : ℕ) (s : State rq key)
      → rq.IsValid s.queue
      → Kept s (drain rq key env fuel i s).0
  unfolding drain
  drain-pending env zero i s v = (v, refl)
  drain-pending env (suc fuel) i s v =
      let t = observe rq key (env i) s in
      let same = pending-observe (env i) s in
      elim (Bool-cases (env i).closed) [
        | inl closed ↦ rw (closed, drain) (v, same)
        | inr live ↦ elim (Option-cases (rq.front s.queue)) [
          | inl empty ↦ rw (live, drain, empty) (v, same)
          | inr (m, front_m) ↦ elim (Bool-cases (push t.feeder m).1) [
            | inl pushed ↦
                let t' : State rq key = record t {
                  feeder = (push t.feeder m).0;
                  queue = rq.drop_front t.queue;
                } in
                let (v', kept) =
                  drain-pending env fuel (i + 1) t' (rq.drop_front-IsValid t.queue v) in
                rw (live, drain, front_m, pushed) (v', kept ∙ move_front t v front_m pushed ∙ same)
            | inr refused ↦
                rw (live, drain, front_m, refused, sent-push-false t.feeder m refused) (v, same)
          ]
        ]
      ]

  -- Room for one more message in the backlog without a loss.
  abbrev pub HasRoom : State rq key → Type 0
  HasRoom s = (s.max_queue_depth ≡ 0) ⊎ (length (rq.view s.queue) < s.max_queue_depth)

  room_test :
      (s : State rq key)
      → rq.IsValid s.queue
      → HasRoom s
      → (not (nat_beq s.max_queue_depth 0) && leb s.max_queue_depth (rq.depth s.queue)) ≡ false
  room_test s v room = ground (arith, rq.depth-view s.queue v)

  pub view-keep :
      (s : State rq key) (m : M)
      → rq.IsValid s.queue
      → HasRoom s
      → rq.view (keep rq key s m).queue ≡ put (key m) m (rq.view s.queue)
  unfolding keep
  view-keep s m v room = rw (room_test s v room) (rq.view-enqueue s.queue (key m) m v)

  pub keep-IsValid :
      (s : State rq key) (m : M) → rq.IsValid s.queue → rq.IsValid (keep rq key s m).queue
  unfolding keep
  keep-IsValid s m v =
      elim (Bool-cases
        (not (nat_beq s.max_queue_depth 0) && leb s.max_queue_depth (rq.depth s.queue))) [
          | inl full ↦ rw full (
              rq.enqueue-IsValid (rq.drop_front s.queue) (key m) m
                (rq.drop_front-IsValid s.queue v))
          | inr room ↦ rw room (rq.enqueue-IsValid s.queue (key m) m v)
        ]

  feeder-keep : (s : State rq key) (m : M) → (keep rq key s m).feeder ≡ s.feeder
  unfolding keep
  feeder-keep s m = refl

  keep-pending :
      (s : State rq key) (m : M)
      → rq.IsValid s.queue
      → HasRoom s
      → get (key m) (rq.view s.queue) ≡ none
      → pending (keep rq key s m) ≡ pending s ++ m ∷ []
  keep-pending s m v room absent =
      ap₂ (λ f xs. sent f ++ messages xs) (feeder-keep s m)
        (view-keep s m v room ∙ put_new (key m) m (rq.view s.queue) absent)
      ∙ rw (map-append, append_assoc)

  -- The new message is placed behind all that is pending.
  pub place-pending :
      (s : State rq key) (ready : Bool) (m : M)
      → rq.IsValid s.queue
      → HasRoom s
      → get (key m) (rq.view s.queue) ≡ none
      → (rq.view s.queue ≡ []) ⊎ (ready ≡ false)
      → pending (place rq key s ready m) ≡ pending s ++ m ∷ []
  unfolding place
  place-pending s false m v room absent exit = keep-pending s m v room absent
  place-pending s true m v room absent (inr not_ready) = cc
  place-pending s true m v room absent (inl empty) = elim (Bool-cases (push s.feeder m).1) [
    | inl pushed ↦
        rw (pushed, place) (rw (empty, sent-push-true s.feeder m pushed, append-nil, append-nil))
    | inr refused ↦
        rw (refused, place, sent-push-false s.feeder m refused) (keep-pending s m v room absent)
  ]

  pub place-IsValid :
      (s : State rq key) (ready : Bool) (m : M)
      → rq.IsValid s.queue
      → rq.IsValid (place rq key s ready m).queue
  unfolding place
  place-IsValid s false m v = keep-IsValid s m v
  place-IsValid s true m v = elim (Bool-cases (push s.feeder m).1) [
    | inl pushed ↦ rw (pushed, place) v
    | inr refused ↦ rw (refused, place, sent-push-false s.feeder m refused) (keep-IsValid s m v)
  ]

  -- A key other than the new message's is not brought into the backlog.
  pub place-absent :
      (s : State rq key) (ready : Bool) (m : M) (k : K)
      → rq.IsValid s.queue
      → HasRoom s
      → key m ≢ k
      → get k (rq.view s.queue) ≡ none
      → get k (rq.view (place rq key s ready m).queue) ≡ none
  unfolding place
  place-absent s false m k v room other absent =
      rw (view-keep s m v room, get-put (key m) k m (rq.view s.queue))
        (ground (arith, e.eqb_iff (key m) k))
  place-absent s true m k v room other absent = elim (Bool-cases (push s.feeder m).1) [
    | inl pushed ↦ rw (pushed, place) absent
    | inr refused ↦
        rw
          (
            refused,
            place,
            sent-push-false s.feeder m refused,
            view-keep s m v room,
            get-put (key m) k m (rq.view s.queue),
          )
          (ground (arith, e.eqb_iff (key m) k))
  ]

  abbrev pub Absent : K → List (K × M) → Type 0
  Absent k xs = get k xs ≡ none

  pub tail-Absent : (k : K) (xs : List (K × M)) → Absent k xs → Absent k (Spec.tail xs)
  unfolding get
  tail-Absent k [] h = h
  tail-Absent k ((j, v) ∷ xs) h = ground arith

  pub tail-le : (n : ℕ) (xs : List (K × M)) → length xs ≤ n → length (Spec.tail xs) ≤ n
  tail-le n [] h = h
  tail-le n (x ∷ xs) h = omega arith

  pub max_queue_depth-place :
      (s : State rq key) (ready : Bool) (m : M)
      → (place rq key s ready m).max_queue_depth ≡ s.max_queue_depth
  unfolding place keep
  max_queue_depth-place s false m = refl
  max_queue_depth-place s true m = elim (Bool-cases (push s.feeder m).1) [
    | inl pushed ↦ rw (pushed, place)
    | inr refused ↦ rw (refused, place)
  ]
