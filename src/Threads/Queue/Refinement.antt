-- ===== src/Threads/Queue/Refinement.antt =====
-- The linked list of threads/ThreadSafeQueue.hpp against a plain list.
use phud.Prelude.{
  ℕ, ◌<◌, ◌≤◌, ◌≡◌, refl, ap, List, [], ◌∷◌, ◌++◌, Option, none, some, ◌==◌, arith, is_empty,
  Bool-cases, inl, inr,
}
use phud.Prelude.Result.{Result, ok, ◌>>=◌}
use phud.Threads.Queue.{
  Node, Heap, Queue, update, unwrap, blank, linked, new_queue, push, try_pop, is_queue_empty,
}

module _ {A : Type 0} where
  -- From `p` on, the nodes up to `tail` hold these values.
  abbrev pub Segment : Heap A → ℕ → ℕ → List A → Type 0
  Segment h tail p [] = p ≡ tail
  Segment h tail p (x ∷ xs) =
      (n : ℕ) × (h p ≡ some (record { value = some x; next = some n }))
      × (p < n)
      × (n ≤ tail)
      × Segment h tail n xs

  -- The queue holds these values, oldest first.
  pub record Holds (q : Queue A) (xs : List A) : Type 0 where
    pub nodes : Segment q.heap q.tail q.head xs
    pub dummy : q.heap q.tail ≡ some blank
    pub allocated : q.tail < q.fresh

  Segment-bound : (h : Heap A) (tail p : ℕ) (xs : List A) → Segment h tail p xs → p ≤ tail
  Segment-bound h tail p [] s = omega arith
  Segment-bound h tail p (x ∷ xs) (n, e, l, m, s) = omega arith

  -- A write below the segment leaves it alone.
  Segment-below :
      (h : Heap A) (tail p k : ℕ) (o : Option (Node A)) (xs : List A)
      → k < p
      → Segment h tail p xs
      → Segment (update h k o) tail p xs
  Segment-below h tail p k o [] l s = s
  Segment-below h tail p k o (x ∷ xs) l (n, e, b, m, s) =
      (n, ground (arith, e), b, m, Segment-below h tail n k o xs (omega arith) s)

  -- A write at the tail and a new dummy behind it add a value.
  Segment-push :
      (h : Heap A) (tail fresh p : ℕ) (a : A) (xs : List A)
      → tail < fresh
      → Segment h tail p xs
      → Segment
          (update
            (update h fresh (some blank))
            tail
            (some (record { value = some a; next = some fresh })))
          fresh
          p
          (xs ++ (a ∷ []))
  Segment-push h tail fresh p a [] l s = (fresh, ground (arith, s), omega arith, omega arith, refl)
  Segment-push h tail fresh p a (x ∷ xs) l (n, e, b, m, s) =
      (n, ground (arith, e), b, omega arith, Segment-push h tail fresh n a xs l s)

  pub new_queue-Holds : Holds (new_queue A) []
  unfolding new_queue
  new_queue-Holds = record { nodes = refl; dummy = refl; allocated = omega arith }

  tail_there :
      (q : Queue A) (xs : List A)
      → Holds q xs
      → update q.heap q.fresh (some blank) q.tail ≡ some blank
  tail_there q xs v = elim (Bool-cases (q.fresh == q.tail)) [ inl e ↦ rw e | inr e ↦ rw e v.dummy ]

  pub push-Holds :
      (q : Queue A) (xs : List A) (a : A)
      → Holds q xs
      → (r : Queue A) × (push q a ≡ ok r) × Holds r (xs ++ (a ∷ []))
  unfolding push
  push-Holds q xs a v = (
    linked q a,
    ap (λ (o : Option (Node A)). unwrap o >>= λ _. ok (linked q a)) (tail_there q xs v),
    record {
      nodes = Segment-push q.heap q.tail q.fresh q.head a xs v.allocated v.nodes;
      dummy = ground (arith, v.allocated);
      allocated = omega arith;
    },
  )

  pub try_pop-Holds_nil : (q : Queue A) → Holds q [] → try_pop q ≡ ok (none, q)
  unfolding try_pop
  try_pop-Holds_nil q v = ground (arith, v.nodes)

  pub try_pop-Holds_cons :
      (q : Queue A) (x : A) (xs : List A)
      → Holds q (x ∷ xs)
      → (r : Queue A) × (try_pop q ≡ ok (some x, r)) × Holds r xs × (r.heap q.head ≡ none)
  unfolding try_pop
  try_pop-Holds_cons q x xs v =
      let (n, e, l, m, s) = v.nodes in
      (
        record q { heap = update q.heap q.head none; head = n },
        ground (arith, e),
        record {
          nodes = Segment-below q.heap q.tail n q.head none xs l s;
          dummy = ground (arith, v.dummy);
          allocated = v.allocated;
        },
        ground arith,
      )

-- The calls of the queue, and what a first-in first-out list does with them.
pub data Call (A : Type 0) : Type 0 where
  pushes : A → Call A
  pops : Call A

module _ {A : Type 0} where
  -- What the pops return on a plain list, oldest first.
  pub fifo : List A → List (Call A) → List (Option A)
  fifo xs [] = []
  fifo xs (pushes a ∷ cs) = fifo (xs ++ (a ∷ [])) cs
  fifo [] (pops ∷ cs) = none ∷ fifo [] cs
  fifo (x ∷ xs) (pops ∷ cs) = some x ∷ fifo xs cs

  -- What they return on the linked list.
  pub returned : Queue A → List (Call A) → Result (List (Option A))
  returned q [] = ok []
  returned q (pushes a ∷ cs) = push q a >>= λ r. returned r cs
  returned q (pops ∷ cs) = try_pop q >>= λ p. (returned p.1 cs >>= λ rest. ok (p.0 ∷ rest))

  returned-fifo :
      (cs : List (Call A)) (q : Queue A) (xs : List A)
      → Holds q xs
      → returned q cs ≡ ok (fifo xs cs)
  unfolding returned fifo
  returned-fifo [] q xs v = refl
  returned-fifo (pushes a ∷ cs) q xs v =
      let (r, e, w) = push-Holds q xs a v in rw e (returned-fifo cs r (xs ++ (a ∷ [])) w)
  returned-fifo (pops ∷ cs) q [] v = rw (try_pop-Holds_nil q v, returned-fifo cs q [] v)
  returned-fifo (pops ∷ cs) q (x ∷ xs) v =
      let (r, e, w, _) = try_pop-Holds_cons q x xs v in rw (e, returned-fifo cs r xs w)

  -- From a new queue any sequence of push and tryPop runs without an error, and each tryPop returns
  -- what a first-in first-out list returns: the oldest value that is left, or nothing if there is
  -- none.
  pub new_queue-fifo : (cs : List (Call A)) → returned (new_queue A) cs ≡ ok (fifo [] cs)
  new_queue-fifo cs = returned-fifo cs (new_queue A) [] new_queue-Holds

  -- isEmpty tells whether the queue holds a value.
  pub is_queue_empty-is_empty :
      (q : Queue A) (xs : List A) → Holds q xs → is_queue_empty q ≡ is_empty xs
  unfolding is_queue_empty
  is_queue_empty-is_empty q [] v = ground (arith, v.nodes)
  is_queue_empty-is_empty q (x ∷ xs) v = let (n, e, l, m, s) = v.nodes in ground arith
