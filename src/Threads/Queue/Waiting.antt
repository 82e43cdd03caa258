-- ===== src/Threads/Queue/Waiting.antt =====
-- waitPop and push of threads/ThreadSafeQueue.hpp as interleaved steps. The list stands for the linked
-- list (Refinement). waitPop holds the head mutex throughout, and takes the tail mutex for its look at
-- the tail alone; push takes the tail mutex for its insertion, and notifies when it has let go of it.
use phud.Prelude.{ℕ, suc, ◌≡◌, ◌≢◌, refl, sym, ap, ◌∙◌, List, [], ◌∷◌, ◌++◌, append_assoc}

-- Where the thread in waitPop stands: outside; with the head mutex, before its look; having seen an
-- empty queue, still with the mutex; asleep in m_condition.wait; having seen a value.
pub data Waiter : Type 0 where
  outside looking seen_empty asleep seen_value : Waiter

-- Of the threads in push, how many have inserted their value and not notified yet.
pub record State (A : Type 0) : Type 0 where
  pub items : List A
  pub waiter : Waiter
  pub to_notify : ℕ
  -- all that was pushed and all that was popped, oldest first
  pub pushed : List A
  pub popped : List A

unfoldable pub initial : (A : Type 0) → State A
initial A = record { items = []; waiter = outside; to_notify = 0; pushed = []; popped = [] }

-- notify_one wakes the waiter if it is asleep, and does nothing otherwise. The waiter then has the
-- head mutex again.
abbrev pub woken : Waiter → Waiter
woken asleep = looking
woken outside = outside
woken looking = looking
woken seen_empty = seen_empty
woken seen_value = seen_value

abbrev pub sight : {A : Type 0} → List A → Waiter
sight [] = seen_empty
sight (x ∷ xs) = seen_value

-- The steps of the waiter, but for a spurious wake-up.
pub data WaiterStep {A : Type 0} : State A → State A → Type 0 where
  enter : (s : State A) → s.waiter ≡ outside → WaiterStep s (record s { waiter = looking })
  look : (s : State A) → s.waiter ≡ looking → WaiterStep s (record s { waiter = sight s.items })
  sleep : (s : State A) → s.waiter ≡ seen_empty → WaiterStep s (record s { waiter = asleep })
  take :
      (s : State A) (a : A) (rest : List A)
      → s.waiter ≡ seen_value
      → s.items ≡ a ∷ rest
      → WaiterStep s (record s { items = rest; waiter = outside; popped = s.popped ++ (a ∷ []) })

pub data Step {A : Type 0} : State A → State A → Type 0 where
  waits : {s t : State A} → WaiterStep s t → Step s t
  spurious : (s : State A) → s.waiter ≡ asleep → Step s (record s { waiter = looking })
  insert :
      (s : State A) (a : A)
      → Step s (record s {
        items = s.items ++ (a ∷ []);
        to_notify = suc s.to_notify;
        pushed = s.pushed ++ (a ∷ []);
      })
  notify :
      (s : State A) (n : ℕ)
      → s.to_notify ≡ suc n
      → Step s (record s { to_notify = n; waiter = woken s.waiter })

pub data Reach {A : Type 0} (s : State A) : State A → Type 0 where
  here : Reach s s
  next : {t u : State A} → Reach s t → Step t u → Reach s u

-- Nothing is lost, doubled or overtaken: what was popped and what is queued are what was pushed. And a
-- waiter that has seen a value finds one.
pub record Inv {A : Type 0} (s : State A) : Type 0 where
  pub order : s.popped ++ s.items ≡ s.pushed
  pub sees : s.waiter ≡ seen_value → s.items ≢ []

module _ {A : Type 0} where
  sight-seen_value : (xs : List A) → sight xs ≡ seen_value → xs ≢ []
  sight-seen_value [] h = cc
  sight-seen_value (x ∷ xs) h = λ q. cc

  append-ne-nil : (xs : List A) (a : A) → xs ++ (a ∷ []) ≢ []
  append-ne-nil [] a h = cc
  append-ne-nil (x ∷ xs) a h = cc

  WaiterStep-Inv : {s t : State A} → WaiterStep s t → Inv s → Inv t
  WaiterStep-Inv (enter s e) v = record { order = v.order; sees = λ q. cc }
  WaiterStep-Inv (look s e) v = record { order = v.order; sees = sight-seen_value s.items }
  WaiterStep-Inv (sleep s e) v = record { order = v.order; sees = λ q. cc }
  WaiterStep-Inv (take s a rest e i) v = record {
    order = append_assoc s.popped (a ∷ []) rest ∙ ap (◌++◌ s.popped) (sym i) ∙ v.order;
    sees = λ q. cc;
  }

  Step-Inv : {s t : State A} → Step s t → Inv s → Inv t
  Step-Inv (waits w) v = WaiterStep-Inv w v
  Step-Inv (spurious s e) v = record { order = v.order; sees = λ q. cc }
  Step-Inv (insert s a) v = record {
    order =
        sym (append_assoc s.popped s.items (a ∷ [])) ∙ ap (λ (l : List A). l ++ (a ∷ [])) v.order;
    sees = λ q. append-ne-nil s.items a;
  }
  Step-Inv (notify s n e) v = record {
    order = v.order;
    sees = λ q. v.sees (woken-seen_value s.waiter q);
  }
    where
      woken-seen_value : (w : Waiter) → woken w ≡ seen_value → w ≡ seen_value
      woken-seen_value asleep h = cc
      woken-seen_value outside h = cc
      woken-seen_value looking h = cc
      woken-seen_value seen_empty h = cc
      woken-seen_value seen_value h = refl

  Reach-Inv : {s t : State A} → Reach s t → Inv s → Inv t
  Reach-Inv here v = v
  Reach-Inv (next r st) v = Step-Inv st (Reach-Inv r v)

-- Whatever the interleaving of one waiting thread with any number of pushing ones, what waitPop has
-- popped and what is still queued are, in this order, all that was pushed; and a waiter that has
-- seen a value finds one to pop.
pub Reach-initial-Inv : (A : Type 0) (s : State A) → Reach (initial A) s → Inv s
unfolding initial
Reach-initial-Inv A s r = Reach-Inv r (record { order = refl; sees = λ q. cc })

asleep_stays : {A : Type 0} {t u : State A} → t.waiter ≡ asleep → ¬ WaiterStep t u
asleep_stays h (enter s e) = cc
asleep_stays h (look s e) = cc
asleep_stays h (sleep s e) = cc
asleep_stays h (take s a rest e i) = cc

-- Whenever the waiter of waitPop has seen an empty queue and is not yet asleep, and no notification
-- is due, a whole push can pass before it sleeps; it then sleeps on a queue that holds the value,
-- with no notification due, and can make no step but by a spurious wake-up.
pub lost_wake_up :
    (A : Type 0) (s : State A) (a : A)
    → s.waiter ≡ seen_empty
    → s.to_notify ≡ 0
    → (t : State A) × Reach s t
      × (t.waiter ≡ asleep)
      × (t.items ≡ s.items ++ (a ∷ []))
      × (t.to_notify ≡ 0)
      × ((u : State A) → ¬ WaiterStep t u)
lost_wake_up A s a h n = (
  slept,
  next (next (next here (insert s a)) (notify inserted s.to_notify refl))
      (waits (sleep notified (rw h refl))),
  refl,
  refl,
  n,
  λ u. asleep_stays {t = slept} refl,
)
  where
    inserted : State A
    inserted = record s {
      items = s.items ++ (a ∷ []);
      to_notify = suc s.to_notify;
      pushed = s.pushed ++ (a ∷ []);
    }

    notified : State A
    notified = record inserted { to_notify = s.to_notify; waiter = woken s.waiter }

    slept : State A
    slept = record notified { waiter = asleep }
