-- ===== src/Tests/Messaging.antt =====
-- The message queue (pkg/message_queue) at concrete inputs.
use evgo.Shared.{
  ◌↔◌, In, ℕ, ◌/◌, ◌≡◌, refl, ◌⊎◌, true, false, Option, none, some, List, [], ◌∷◌, map, String,
  nat_eq, string_eq, get, put, delete, arith,
}
use evgo.Queue.{new_replacing_queue, enqueue, dequeue, front, get_value, remove, depth, drop_front}
use evgo.Queue.Spec
use evgo.Queue.Spec.{Call, Reply, perform, perform_all}
use evgo.Queue.Coherence.{IsCoherent, entries}
use evgo.Queue.Refinement.{call, call_all, replies-eq_lem}
use evgo.Queue.Interface.{replacing_queue}
use evgo.Consumer.{
  untyped, Moment, State, process, try_next, drain, keep, place, push, receive, sent,
}
use evgo.Consumer.Delivery.{pending}
use evgo.Consumer.Loop.{drain_exit}
use evgo.Consumer.Process.{process-pending}
use evgo.Consumer.Bounds.{IsBounded, process-IsBounded}
use evgo.Trie.{
  SelectorTrie, new_node, register, unregister, find, find_all, path_of, insert_at, child,
  set_child,
}
use evgo.Trie.Children.{IsWellFormed}
use evgo.Trie.Laws.{at}
use evgo.Trie.Search.{Accepted, find_all_lem}
use evgo.Trie.Registry.{unregister-register}

abbrev calls : List (Call ℕ ℕ)
calls =
    Spec.enqueue 7 70
    ∷ Spec.enqueue 8 80
    ∷ Spec.enqueue 7 71
    ∷ Spec.depth
    ∷ Spec.dequeue
    ∷ Spec.get_value 8
    ∷ Spec.remove 8
    ∷ Spec.front
    ∷ []

queue_run :
    (call_all calls new_replacing_queue).1
    ≡ Spec.replaced false 1
      ∷ Spec.replaced false 2
      ∷ Spec.replaced true 2
      ∷ Spec.size 2
      ∷ Spec.value (some 71)
      ∷ Spec.value (some 80)
      ∷ Spec.flag true
      ∷ Spec.value none
      ∷ []
unfolding call_all call new_replacing_queue enqueue depth dequeue get_value remove front get put
    delete
queue_run = refl

replies-eq_lem_example : (call_all calls new_replacing_queue).1 ≡ (perform_all calls []).1
replies-eq_lem_example = replies-eq_lem calls

abbrev key : ℕ → ℕ
key m = m / 10

-- a feeder whose channel holds one message, and an empty backlog
abbrev idle : ℕ → State (replacing_queue {K = ℕ} {V = ℕ}) key
idle limit = record {
  queue = record { list = []; table = []; fresh = 0 };
  feeder = untyped (record { sent = []; received = 0; capacity = 1 });
  max_queue_depth = limit;
}

abbrev quiet : ℕ → ℕ → Moment
quiet round n = record { closed = false; receives = 0 }

empty-IsCoherent : (limit : ℕ) → IsCoherent (idle limit).queue
empty-IsCoherent limit = record {
  indexed = refl;
  keys_distinct = tt;
  elements_distinct = tt;
  elements_below = tt;
}

consumer_run :
    (sent (process replacing_queue key quiet 0 (map some (70 ∷ 80 ∷ 71 ∷ [])) (idle 0)).feeder
      ≡ 70 ∷ [])
    × (entries
          (process replacing_queue key quiet 0 (map some (70 ∷ 80 ∷ 90 ∷ [])) (idle 1)).queue.list
        ≡ (9, 90) ∷ [])
unfolding process try_next drain keep place push receive enqueue depth front drop_front get put
    delete
consumer_run = (refl, refl)

process-pending_example :
    pending replacing_queue key
      (process replacing_queue key quiet 0 (map some (70 ∷ 80 ∷ [])) (idle 0))
    ≡ 70 ∷ 80 ∷ []
unfolding get
process-pending_example =
    process-pending replacing_queue key quiet 0 (70 ∷ 80 ∷ []) (idle 0) (λ r n. refl)
      (empty-IsCoherent 0) refl (refl, (omega arith, tt), (refl, tt, tt))

process-IsBounded_example :
    IsBounded replacing_queue key
      (process replacing_queue key quiet 0 (map some (70 ∷ 80 ∷ 90 ∷ [])) (idle 1))
process-IsBounded_example =
    process-IsBounded replacing_queue key quiet 0 (map some (70 ∷ 80 ∷ 90 ∷ [])) (idle 1)
      (record { valid = empty-IsCoherent 1; bounded = λ h. omega arith })

abbrev trie : SelectorTrie String ℕ
trie = record { max_selectors = 3; root = new_node; index_counter = 0 }

trie-IsWellFormed : IsWellFormed trie.root
unfolding IsWellFormed
trie-IsWellFormed = (tt, tt)

abbrev us_prod : List (Option String)
us_prod = some "US" ∷ none ∷ some "Prod" ∷ []

abbrev us_auth_prod : List (Option String)
us_auth_prod = some "US" ∷ some "Auth" ∷ some "Prod" ∷ []

abbrev two : SelectorTrie String ℕ
two = (register (register trie us_auth_prod 11).0 us_prod 22).0

-- The level trie finds both; the selector trie follows the specific branch and misses the general
-- registration.
trie_run :
    (find_all 3 us_auth_prod two.root ≡ (1, 11) ∷ (2, 22) ∷ [])
    × (find 3 us_auth_prod two.root ≡ (1, 11) ∷ [])
unfolding register path_of insert_at child set_child find find_all put
trie_run = (refl, refl)

find_all_lem_example :
    In (2, 22) (find_all 3 us_auth_prod two.root) ↔ Accepted (2, 22) 3 us_auth_prod two.root
find_all_lem_example = find_all_lem (2, 22) 3 us_auth_prod two.root

unregister-register_example :
    let (st', subscription) = register trie us_prod 22 in
    let (st'', found) = unregister st' subscription in
    (found ≡ some 22) × ((other : List (Option String)) → at other st''.root ≡ at other trie.root)
unfolding path_of at child get
unregister-register_example = unregister-register trie trie-IsWellFormed us_prod 22 refl

drain_exit_example :
    ((replacing_queue {K = ℕ} {V = ℕ}).view
        (drain replacing_queue key (quiet 0) 1 0 (idle 0)).0.queue
      ≡ [])
    ⊎ ((drain replacing_queue key (quiet 0) 1 0 (idle 0)).1 ≡ false)
drain_exit_example =
    drain_exit replacing_queue key (quiet 0) 1 0 (idle 0) (empty-IsCoherent 0) (omega arith)
      (λ n. refl)
