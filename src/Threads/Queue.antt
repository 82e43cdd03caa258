-- ===== src/Threads/Queue.antt =====
-- threads/ThreadSafeQueue.hpp: a linked list with a dummy node at its tail, on an explicit heap. An
-- address is the number of an allocation, so none is given out twice. The members that are here hold
-- their mutexes from the first access to the last, and each is one step.
pub mod Refinement
pub mod Waiting
use phud.Prelude.{
  ℕ, suc, ◌≡◌, refl, List, [], ◌∷◌, Bool, true, false, Option, none, some, if◌then◌else◌, ◌==◌,
}
use phud.Prelude.Result.{Result, ok, err, ◌>>=◌, undefined_behaviour}

pub record Node (A : Type 0) : Type 0 where
  pub value : Option A
  pub next : Option ℕ

abbrev pub Heap : Type 0 → Type 0
Heap A = ℕ → Option (Node A)

pub record Queue (A : Type 0) : Type 0 where
  pub heap : Heap A
  pub head : ℕ
  pub tail : ℕ
  -- the number of the next allocation
  pub fresh : ℕ

abbrev pub unwrap {ℓ} : {B : Type ℓ} → Option B → Result B
unwrap none = err undefined_behaviour
unwrap (some b) = ok b

module _ {A : Type 0} where
  abbrev pub update : Heap A → ℕ → Option (Node A) → Heap A
  update h p n q = if p == q then n else h q

  abbrev pub blank : Node A
  blank = record { value = none; next = none }

  -- *p, and undefined behaviour where p points to no node
  abbrev pub deref : Heap A → ℕ → Result (Node A)
  deref h p = unwrap (h p)

-- ThreadSafeQueue::ThreadSafeQueue
pub new_queue : (A : Type 0) → Queue A
new_queue A = record { heap = update (λ _. none) 0 (some blank); head = 0; tail = 0; fresh = 1 }

module _ {A : Type 0} where
  -- m_pTail->data = newData; m_pTail->next = pNode; m_pTail = newTail
  abbrev pub linked : Queue A → A → Queue A
  linked q a = record q {
    heap =
        update (update q.heap q.fresh (some blank)) q.tail
          (some (record { value = some a; next = some q.fresh }));
    tail = q.fresh;
    fresh = suc q.fresh;
  }

  -- ThreadSafeQueue::push
  pub push : Queue A → A → Result (Queue A)
  push q a = do n ← deref (update q.heap q.fresh (some blank)) q.tail; ok (linked q a)

  -- ThreadSafeQueue::popHead, and reset() on what it returns
  pop_head : Queue A → Result (Queue A)
  pop_head q = do
    old ← deref q.heap q.head
    next ← unwrap old.next
    ok (record q { heap = update q.heap q.head none; head = next })

  -- value = std::move(*m_pHead->data); popHead().reset();
  take_head : Queue A → Result (A × Queue A)
  unfolding pop_head
  take_head q = do
    front ← deref q.heap q.head
    a ← unwrap front.value
    rest ← pop_head q
    ok (a, rest)

  abbrev pub found_one : A × Queue A → Option A × Queue A
  found_one (a, q) = (some a, q)

  -- ThreadSafeQueue::tryPop
  pub try_pop : Queue A → Result (Option A × Queue A)
  unfolding take_head
  try_pop q = if q.head == q.tail then ok (none, q) else take_head q >>= λ r. ok (found_one r)

  -- ThreadSafeQueue::isEmpty
  pub is_queue_empty : Queue A → Bool
  is_queue_empty q = q.head == q.tail
