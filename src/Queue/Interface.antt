-- ===== src/Queue/Interface.antt =====
-- message_queue/random_access_queue.go: the interface through which the consumer sees its queue,
-- with the laws that a client may rely on, and ReplacingQueue as an implementation.

use evgo.Shared.{ℕ, ◌≡◌, sym, ap, ◌∙◌, Option, List, [], Eq, length, put, length-map}
use evgo.Queue.{ReplacingQueue, enqueue, front, clear, depth, drop_front}
use evgo.Queue.Spec
use evgo.Queue.Coherence.{IsCoherent, entries}
use evgo.Queue.Refinement.{call, call-Refines, front_reply}

-- The methods that the consumer calls; `view` is the abstract content, oldest first.
pub record RandomAccessQueue (K V : Type 0) ⦃e : Eq K⦄ : Type 1 where
  pub Q : Type 0
  pub enqueue : Q → K → V → Q
  pub front : Q → Option V
  pub drop_front : Q → Q
  pub clear : Q → Q
  pub depth : Q → ℕ
  pub view : Q → List (K × V)
  pub IsValid : Q → Type 0
  pub enqueue-IsValid : (q : Q) (k : K) (v : V) → IsValid q → IsValid (enqueue q k v)
  pub drop_front-IsValid : (q : Q) → IsValid q → IsValid (drop_front q)
  pub clear-IsValid : (q : Q) → IsValid q → IsValid (clear q)
  pub view-enqueue : (q : Q) (k : K) (v : V) → IsValid q → view (enqueue q k v) ≡ put k v (view q)
  pub view-drop_front : (q : Q) → IsValid q → view (drop_front q) ≡ Spec.tail (view q)
  pub view-clear : (q : Q) → IsValid q → view (clear q) ≡ []
  pub front-view : (q : Q) → IsValid q → front q ≡ Spec.first (view q)
  pub depth-view : (q : Q) → IsValid q → depth q ≡ length (view q)

module _ {K V : Type 0} ⦃e : Eq K⦄ where
  pub front-first : (q : ReplacingQueue K V) → IsCoherent q → front q ≡ Spec.first (entries q.list)
  unfolding front
  front-first q c = front_reply c q.list

  pub depth-length : (q : ReplacingQueue K V) → IsCoherent q → depth q ≡ length (entries q.list)
  unfolding depth
  depth-length q c = ap length c.indexed ∙ length-map _ q.list ∙ sym (length-map _ q.list)

  module _ (q : ReplacingQueue K V) (c : IsCoherent q) where
    pub enqueue-IsCoherent : (k : K) (v : V) → IsCoherent (enqueue q k v).0
    unfolding call
    enqueue-IsCoherent k v = (call-Refines c (Spec.enqueue k v)).coherent

    pub drop_front-IsCoherent : IsCoherent (drop_front q)
    unfolding call
    drop_front-IsCoherent = (call-Refines c Spec.drop_front).coherent

    pub clear-IsCoherent : IsCoherent (clear q)
    unfolding call
    clear-IsCoherent = (call-Refines c Spec.clear).coherent

    pub entries-enqueue :
        (k : K) (v : V) → entries (enqueue q k v).0.list ≡ put k v (entries q.list)
    unfolding call
    entries-enqueue k v = (call-Refines c (Spec.enqueue k v)).state

    pub entries-drop_front : entries (drop_front q).list ≡ Spec.tail (entries q.list)
    unfolding call
    entries-drop_front = (call-Refines c Spec.drop_front).state

    pub entries-clear : entries (clear q).list ≡ []
    unfolding call
    entries-clear = (call-Refines c Spec.clear).state

  abbrev pub replacing_queue : RandomAccessQueue K V
  replacing_queue = record {
    Q = ReplacingQueue K V;
    enqueue = λ q k v. (enqueue q k v).0;
    front = front;
    drop_front = drop_front;
    clear = clear;
    depth = depth;
    view = λ q. entries q.list;
    IsValid = IsCoherent;
    enqueue-IsValid = λ q k v c. enqueue-IsCoherent q c k v;
    drop_front-IsValid = drop_front-IsCoherent;
    clear-IsValid = clear-IsCoherent;
    view-enqueue = λ q k v c. entries-enqueue q c k v;
    view-drop_front = entries-drop_front;
    view-clear = entries-clear;
    front-view = front-first;
    depth-view = depth-length;
  }
