-- ===== src/Consumer/Loop.antt =====
-- ConsumerBase.process: how the drain loop ends, and what it leaves of the backlog.

use evgo.Shared.{
  ℕ, zero, suc, ◌+◌, ◌<◌, ◌≡◌, refl, sym, ◌∙◌, ◌⊎◌, inl, inr, false, none, some, List, [], ◌∷◌, Eq,
  length, arith, Bool-cases, Option-cases,
}
use evgo.Queue.Spec
use evgo.Queue.Interface.{RandomAccessQueue}
use evgo.Consumer.{push, Moment, State, observe, drain}

module _ {K M : Type 0} ⦃e : Eq K⦄ (rq : RandomAccessQueue K M) (key : M → K)
    (env : ℕ → Moment) where
  -- What holds of the backlog and survives the loss of its front, survives the drain loop.
  pub drain_stable :
      (P : List (K × M) → Type 0)
      → ((xs : List (K × M)) → P xs → P (Spec.tail xs))
      → (fuel i : ℕ) (s : State rq key) → rq.IsValid s.queue
      → P (rq.view s.queue)
      → P (rq.view (drain rq key env fuel i s).0.queue)
  unfolding drain
  drain_stable P step zero i s v p = p
  drain_stable P step (suc fuel) i s v p =
      let t = observe rq key (env i) s in
      elim (Bool-cases (env i).closed) [
        | inl closed ↦ rw (closed, drain) p
        | inr live ↦ elim (Option-cases (rq.front s.queue)) [
          | inl empty ↦ rw (live, drain, empty) p
          | inr (m, front_m) ↦ elim (Bool-cases (push t.feeder m).1) [
            | inl pushed ↦
                let t' : State rq key = record t {
                  feeder = (push t.feeder m).0;
                  queue = rq.drop_front t.queue;
                } in
                rw (live, drain, front_m, pushed)
                  (drain_stable P step fuel (i + 1) t' (rq.drop_front-IsValid t.queue v)
                    (rw (rq.view-drop_front t.queue v) (step (rq.view t.queue) p)))
            | inr refused ↦ rw (live, drain, front_m, refused) p
          ]
        ]
      ]

  pub max_queue_depth-drain :
      (fuel i : ℕ) (s : State rq key)
      → (drain rq key env fuel i s).0.max_queue_depth ≡ s.max_queue_depth
  unfolding drain
  max_queue_depth-drain zero i s = refl
  max_queue_depth-drain (suc fuel) i s =
      let t = observe rq key (env i) s in
      elim (Bool-cases (env i).closed) [
        | inl closed ↦ rw (closed, drain)
        | inr live ↦ elim (Option-cases (rq.front s.queue)) [
          | inl empty ↦ rw (live, drain, empty)
          | inr (m, front_m) ↦ elim (Bool-cases (push t.feeder m).1) [
            | inl pushed ↦
                let t' : State rq key = record t {
                  feeder = (push t.feeder m).0;
                  queue = rq.drop_front t.queue;
                } in
                rw (live, drain, front_m, pushed) (max_queue_depth-drain fuel (i + 1) t')
            | inr refused ↦ rw (live, drain, front_m, refused)
          ]
        ]
      ]

  length-tail :
      (xs : List (K × M)) {n : ℕ} {m : M}
      → Spec.first xs ≡ some m
      → length xs < suc n
      → length (Spec.tail xs) < n
  length-tail [] f h = cc
  length-tail (x ∷ xs) f h = omega arith

  view_empty : (xs : List (K × M)) → Spec.first xs ≡ none → xs ≡ []
  view_empty [] h = refl
  view_empty ((k, v) ∷ xs) h = cc

  -- With more fuel than messages in a valid backlog, and never found closed, the drain loop ends as
  -- it does in the source: with an empty backlog or with a feeder that has refused a message.
  pub drain_exit :
      (fuel i : ℕ) (s : State rq key)
      → rq.IsValid s.queue
      → length (rq.view s.queue) < fuel
      → ((n : ℕ) → (env n).closed ≡ false)
      → (rq.view (drain rq key env fuel i s).0.queue ≡ []) ⊎ ((drain rq key env fuel i s).1 ≡ false)
  unfolding drain
  drain_exit zero i s v h open_ = elim h [ ]
  drain_exit (suc fuel) i s v h open_ =
      let t = observe rq key (env i) s in
      elim (Option-cases (rq.front s.queue)) [
        | inl empty ↦
            rw (open_ i, drain, empty)
              (inl (view_empty (rq.view s.queue) (sym (rq.front-view s.queue v) ∙ empty)))
        | inr (m, front_m) ↦ elim (Bool-cases (push t.feeder m).1) [
          | inl pushed ↦
              let t' : State rq key = record t {
                feeder = (push t.feeder m).0;
                queue = rq.drop_front t.queue;
              } in
              rw (open_ i, drain, front_m, pushed)
                (drain_exit fuel (i + 1) t' (rq.drop_front-IsValid t.queue v)
                  (rw (rq.view-drop_front t.queue v)
                    (length-tail (rq.view t.queue) (sym (rq.front-view t.queue v) ∙ front_m) h))
                  open_)
          | inr refused ↦ rw (open_ i, drain, front_m, refused) (inr refl)
        ]
      ]
