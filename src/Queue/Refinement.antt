-- ===== src/Queue/Refinement.antt =====
-- ReplacingQueue against the queue of Queue/Spec.
use mathlib.Core.List.{map-append}
use mathlib.Core.Path.{ap₂}
use evgo.Shared.{
  ℕ, ◌+◌, ◌<◌, ◌≡◌, refl, sym, ap, ◌∙◌, true, false, none, some, List, [], ◌∷◌, ◌++◌, Eq, length,
  get, put, delete, arith, put_new, Option-cases, inl, inr, nat_eq, put-Distinct, delete-Distinct,
  length-map, length-append, length-put_old, get_head, delete_head, delete_absent,
}
use evgo.Queue.{
  ReplacingQueue, new_replacing_queue, enqueue, dequeue, front, get_value, update, remove, clear,
  depth, drop_front, pop_element, drop_element, front_element,
}
use evgo.Queue.Spec
use evgo.Queue.Spec.{Call, Reply, replaced, value, flag, size, nothing, perform, perform_all}
use evgo.Queue.Coherence.{
  IsCoherent, entries, indices, element_of_index, entries-put, indices-put, entries-delete,
  indices-delete, get-indices-none, Below-weaken, get_of_Below, put-Below, get-lt_of_Below,
  delete-Below,
}

module _ {ℓ} {K V : Type ℓ} ⦃e : Eq K⦄ where
  -- One method call, with what it returns.
  unfoldable pub call : Call K V → ReplacingQueue K V → ReplacingQueue K V × Reply V
  call (Call.enqueue k v) q = let (q', r) = enqueue q k v in (q', replaced r.0 r.1)
  call Call.dequeue q = let (q', r) = dequeue q in (q', value r)
  call Call.front q = (q, value (front q))
  call (Call.get_value k) q = (q, value (get_value q k))
  call (Call.update k v) q = let (q', r) = update q k v in (q', flag r)
  call (Call.remove k) q = let (q', r) = remove q k in (q', flag r)
  call Call.clear q = (clear q, nothing)
  call Call.depth q = (q, size (depth q))
  call Call.drop_front q = (drop_front q, nothing)

  unfoldable pub call_all :
      List (Call K V) → ReplacingQueue K V → ReplacingQueue K V × List (Reply V)
  call_all [] q = (q, [])
  call_all (c ∷ cs) q = let (q', r) = call c q in let (q'', rs) = call_all cs q' in (q'', r ∷ rs)

  -- A state and a reply of the implementation against those of the specification.
  pub record Refines (impl : ReplacingQueue K V × Reply V) (spec : List (K × V) × Reply V)
      : Type ℓ where
    pub coherent : IsCoherent impl.0
    pub state : entries impl.0.list ≡ spec.0
    pub reply : impl.1 ≡ spec.1

  module _ {q : ReplacingQueue K V} (coh : IsCoherent q) where
    at_table : (k : K) {el : ℕ} → get k q.table ≡ some el → get k (indices q.list) ≡ some el
    at_table k h = rw (← coh.indexed) h

    lt_fresh : (k : K) {el : ℕ} → get k q.table ≡ some el → el < q.fresh
    lt_fresh k {el} h =
        let (v, at_el, _) = element_of_index k q.list coh.elements_distinct (at_table k h) in
        get-lt_of_Below q.fresh el q.list coh.elements_below (λ absent. cc)

    absent_entry : (k : K) → get k q.table ≡ none → get k (entries q.list) ≡ none
    absent_entry k h = get-indices-none k q.list (rw (← coh.indexed) h)

    -- Writing the value of a key that is there.
    write-IsCoherent :
        (k : K) (v : V) {el : ℕ}
        → get k q.table ≡ some el
        → IsCoherent (record q { list = put el (k, v) q.list })
    write-IsCoherent k v {el} h = record {
      indexed = coh.indexed ∙ sym (indices-put k v q.list coh.elements_distinct (at_table k h));
      keys_distinct =
          rw (entries-put k v q.list coh.elements_distinct (at_table k h))
            (put-Distinct k v (entries q.list) coh.keys_distinct);
      elements_distinct = put-Distinct el (k, v) q.list coh.elements_distinct;
      elements_below = put-Below q.fresh el (k, v) q.list (lt_fresh k h) coh.elements_below;
    }

    erase-IsCoherent :
        (k : K) {el : ℕ}
        → get k q.table ≡ some el
        → IsCoherent (record q { list = delete el q.list; table = delete k q.table })
    erase-IsCoherent k {el} h = record {
      indexed =
          ap (delete k) coh.indexed
          ∙ sym (indices-delete k q.list coh.elements_distinct (at_table k h));
      keys_distinct =
          rw (entries-delete k q.list coh.elements_distinct (at_table k h))
            (delete-Distinct k (entries q.list) coh.keys_distinct);
      elements_distinct = delete-Distinct el q.list coh.elements_distinct;
      elements_below = delete-Below q.fresh el q.list coh.elements_below;
    }

    append-IsCoherent :
        (k : K) (v : V)
        → get k q.table ≡ none
        → IsCoherent (record {
          list = q.list ++ (q.fresh, (k, v)) ∷ [];
          table = put k q.fresh q.table;
          fresh = q.fresh + 1;
        })
    append-IsCoherent k v h =
        let absent : get q.fresh q.list ≡ none = get_of_Below q.fresh q.list coh.elements_below in
        record {
          indexed =
              ap (put k q.fresh) coh.indexed
              ∙ put_new k q.fresh (indices q.list) (rw (← coh.indexed) h)
              ∙ sym (map-append _ q.list _);
          keys_distinct =
              rw (map-append, ← put_new k v (entries q.list) (absent_entry k h))
                (put-Distinct k v (entries q.list) coh.keys_distinct);
          elements_distinct =
              rw (← put_new q.fresh (k, v) q.list absent)
                (put-Distinct q.fresh (k, v) q.list coh.elements_distinct);
          elements_below = rw (← put_new q.fresh (k, v) q.list absent) (
              put-Below (q.fresh + 1) q.fresh (k, v) q.list (omega arith)
                (Below-weaken q.list (omega arith) coh.elements_below));
        }

    table_length : length q.table ≡ length (entries q.list)
    table_length = ap length coh.indexed ∙ length-map _ q.list ∙ sym (length-map _ q.list)

    enqueue-Refines :
        (k : K) (v : V)
        → Refines (call (Call.enqueue k v) q) (perform (Call.enqueue k v) (entries q.list))
    unfolding call enqueue
    enqueue-Refines k v = elim (Option-cases (get k q.table)) [
      | inl absent ↦
          rw (absent, enqueue)
            (record {
              coherent = append-IsCoherent k v absent;
              state =
                  map-append _ q.list _
                  ∙ sym (put_new k v (entries q.list) (absent_entry k absent));
              reply =
                  rw
                    (
                      absent_entry k absent,
                      put_new k v (entries q.list) (absent_entry k absent),
                      put_new k q.fresh q.table absent,
                    )
                    (ap (replaced false) (
                      length-append q.table _
                      ∙ ap (λ n. n + 1) table_length
                      ∙ sym (length-append (entries q.list) _)));
            })
      | inr (el, found) ↦
          let (w, at_el, seen) =
            element_of_index k q.list coh.elements_distinct (at_table k found) in
          rw (found, enqueue)
            (record {
              coherent = write-IsCoherent k v found;
              state = entries-put k v q.list coh.elements_distinct (at_table k found);
              reply = rw seen (
                  ap (replaced true)
                    (table_length ∙ sym (length-put_old k v (entries q.list) seen)));
            })
    ]

    update-Refines :
        (k : K) (v : V)
        → Refines (call (Call.update k v) q) (perform (Call.update k v) (entries q.list))
    unfolding call update
    update-Refines k v = elim (Option-cases (get k q.table)) [
      | inl absent ↦
          rw (absent, update, absent_entry k absent)
            (record { coherent = coh; state = refl; reply = refl })
      | inr (el, found) ↦
          let (w, at_el, seen) =
            element_of_index k q.list coh.elements_distinct (at_table k found) in
          rw (found, update, seen)
            (record {
              coherent = write-IsCoherent k v found;
              state = entries-put k v q.list coh.elements_distinct (at_table k found);
              reply = refl;
            })
    ]

    remove-Refines :
        (k : K) → Refines (call (Call.remove k) q) (perform (Call.remove k) (entries q.list))
    unfolding call remove
    remove-Refines k = elim (Option-cases (get k q.table)) [
      | inl absent ↦
          rw (absent, remove, absent_entry k absent)
            (record {
              coherent = coh;
              state = sym (delete_absent k (entries q.list) (absent_entry k absent));
              reply = refl;
            })
      | inr (el, found) ↦
          let (w, at_el, seen) =
            element_of_index k q.list coh.elements_distinct (at_table k found) in
          rw (found, remove, seen)
            (record {
              coherent = erase-IsCoherent k found;
              state = entries-delete k q.list coh.elements_distinct (at_table k found);
              reply = refl;
            })
    ]

    get_value-Refines :
        (k : K) → Refines (call (Call.get_value k) q) (perform (Call.get_value k) (entries q.list))
    unfolding call get_value
    get_value-Refines k = record {
      coherent = coh;
      state = refl;
      reply = elim (Option-cases (get k q.table)) [
        | inl absent ↦ rw (absent, get_value, absent_entry k absent)
        | inr (el, found) ↦
            let (w, at_el, seen) =
              element_of_index k q.list coh.elements_distinct (at_table k found) in
            rw (found, get_value, seen, at_el)
      ];
    }

    -- The front element is the table's element of its key.
    front_index :
        (el : ℕ) (k : K) (v : V) (rest : List (ℕ × (K × V)))
        → q.list ≡ (el, (k, v)) ∷ rest
        → get k q.table ≡ some el
    front_index el k v rest h = rw (coh.indexed, h) (get_head k el (indices rest))

    tail-entries :
        (el : ℕ) (k : K) (v : V) (rest : List (ℕ × (K × V)))
        → q.list ≡ (el, (k, v)) ∷ rest
        → entries (delete el q.list) ≡ Spec.tail (entries q.list)
    tail-entries el k v rest h = rw (h, delete_head el (k, v) rest)

    pop-Refines :
        (l : List (ℕ × (K × V)))
        → q.list ≡ l
        → Refines
            ((pop_element q l).0, value (pop_element q l).1)
            (perform Call.dequeue (entries l))
    pop-Refines [] h = record { coherent = coh; state = rw h; reply = refl }
    pop-Refines ((el, (k, v)) ∷ rest) h = record {
      coherent = erase-IsCoherent k (front_index el k v rest h);
      state = tail-entries el k v rest h ∙ ap (λ l. Spec.tail (entries l)) h;
      reply = refl;
    }

    drop-Refines :
        (l : List (ℕ × (K × V)))
        → q.list ≡ l
        → Refines (drop_element q l, nothing) (perform Call.drop_front (entries l))
    drop-Refines [] h = record { coherent = coh; state = rw h; reply = refl }
    drop-Refines ((el, (k, v)) ∷ rest) h = record {
      coherent = erase-IsCoherent k (front_index el k v rest h);
      state = tail-entries el k v rest h ∙ ap (λ l. Spec.tail (entries l)) h;
      reply = refl;
    }

    pub front_reply : (l : List (ℕ × (K × V))) → front_element l ≡ Spec.first (entries l)
    front_reply [] = refl
    front_reply ((el, (k, v)) ∷ rest) = refl

    clear-IsCoherent : IsCoherent (clear q)
    unfolding clear
    clear-IsCoherent = record {
      indexed = refl;
      keys_distinct = tt;
      elements_distinct = tt;
      elements_below = tt;
    }

    -- Each of the nine calls on a coherent ReplacingQueue leaves it coherent, changes its entries
    -- as the abstract queue does, and gives the same reply.
    pub call-Refines : (c : Call K V) → Refines (call c q) (perform c (entries q.list))
    unfolding call dequeue front depth drop_front clear
    call-Refines (Call.enqueue k v) = enqueue-Refines k v
    call-Refines Call.dequeue = pop-Refines q.list refl
    call-Refines Call.front = record {
      coherent = coh;
      state = refl;
      reply = ap value (front_reply q.list);
    }
    call-Refines (Call.get_value k) = get_value-Refines k
    call-Refines (Call.update k v) = update-Refines k v
    call-Refines (Call.remove k) = remove-Refines k
    call-Refines Call.clear = record { coherent = clear-IsCoherent; state = refl; reply = refl }
    call-Refines Call.depth = record { coherent = coh; state = refl; reply = ap size table_length }
    call-Refines Call.drop_front = drop-Refines q.list refl

  pub new-IsCoherent : IsCoherent (new_replacing_queue {K = K} {V = V})
  unfolding new_replacing_queue
  new-IsCoherent = record {
    indexed = refl;
    keys_distinct = tt;
    elements_distinct = tt;
    elements_below = tt;
  }

  call_all-perform_all :
      (cs : List (Call K V)) (q : ReplacingQueue K V)
      → IsCoherent q
      → (call_all cs q).1 ≡ (perform_all cs (entries q.list)).1
  unfolding call_all perform_all
  call_all-perform_all [] q coh = refl
  call_all-perform_all (c ∷ cs) q coh =
      let r = call-Refines coh c in
      ap₂ ◌∷◌ r.reply
        (call_all-perform_all cs (call c q).0 r.coherent ∙ ap (λ xs. (perform_all cs xs).1) r.state)

  -- From a new ReplacingQueue any sequence of its nine calls returns exactly the replies of the
  -- abstract queue, a list of entries in which a key that is enqueued again is replaced in place.
  pub replies-eq_lem :
      (cs : List (Call K V))
      → (call_all cs (new_replacing_queue {K = K} {V = V})).1 ≡ (perform_all cs []).1
  replies-eq_lem cs =
      call_all-perform_all cs new_replacing_queue new-IsCoherent
      ∙ unfold new_replacing_queue in refl
