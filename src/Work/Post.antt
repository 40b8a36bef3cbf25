-- ===== src/Work/Post.antt =====
-- WorkSchedule.PostWork in the queued mode, and the room of the bucket.
use evgo.Shared.{List, [], ◌∷◌}
use evgo.Work.{Work, WorkScheduleConfig, WorkCrud, Locker, State, Environment, queued, post_work}

module _ (crud : WorkCrud) (locker : Locker) (config : WorkScheduleConfig) where
  -- works posted one after another to the queue
  abbrev pub post_all : Environment crud → List Work → State crud locker → State crud locker
  post_all env [] s = s
  post_all env (work ∷ works) s =
      post_all env works (post_work crud locker config env queued work s).0
