-- ===== src/Statistics/Flow.antt =====
-- statistics/StatsProducer.cpp and StatsConsumer.cpp: the tasks at the two ends of the queue of table
-- statistics. One call of a task is one step; the members of the queue are steps of their own, and each
-- task calls one of them at most. The database's answer is an argument of the producer's task.
use phud.Prelude.{
  ◌≡◌, refl, sym, ap, ◌∙◌, inl, inr, true, Option, none, some, List, [], ◌∷◌, ◌++◌, append_assoc,
  append-nil, ◌==◌, if◌then◌else◌, arith, Bool-cases,
}
use phud.Prelude.Result.{Result, ok, ◌>>=◌}
use phud.Entities.Seat.{seat_unknown, to_array_index}
use phud.Statistics.Table.{TableStatistics, is_table_valid}
use phud.Threads.Queue.{Queue, new_queue, push, try_pop}
use phud.Threads.Queue.Refinement.{
  Holds, new_queue-Holds, push-Holds, try_pop-Holds_nil, try_pop-Holds_cons,
}

abbrev pub StatsQueue : Type 0 → Type 0
StatsQueue D = Queue (TableStatistics D)

-- A call of one of the two tasks.
pub data Turn (D : Type 0) : Type 0 where
  producer : TableStatistics D → Turn D
  consumer : Turn D

module _ {D : Type 0} where
  -- the lambda of StatsProducer::start
  unfoldable pub produce : TableStatistics D → StatsQueue D → Result (StatsQueue D)
  produce stats queue = if is_table_valid stats then push queue stats else ok queue

  -- what the lambda of consumeAndNotify does with what it pops: the calls of observerCb
  unfoldable pub notified : Option (TableStatistics D) → List (TableStatistics D)
  notified none = []
  notified (some stats) =
      if to_array_index seat_unknown == to_array_index stats.max_seats then [] else stats ∷ []

  -- the lambda of consumeAndNotify
  unfoldable pub consume : StatsQueue D → Result (List (TableStatistics D) × StatsQueue D)
  unfolding notified
  consume queue = do (popped, queue') ← try_pop queue; ok (notified popped, queue')

  -- The calls of observerCb, and the queue that is left.
  unfoldable pub run_turns :
      List (Turn D) → StatsQueue D → Result (List (TableStatistics D) × StatsQueue D)
  unfolding produce consume
  run_turns [] queue = ok ([], queue)
  run_turns (producer stats ∷ turns) queue = produce stats queue >>= run_turns turns
  run_turns (consumer ∷ turns) queue =
      consume queue >>= λ first. run_turns turns first.1 >>= λ rest. ok (first.0 ++ rest.0, rest.1)

  -- The valid statistics that the producer was given, oldest first.
  abbrev pub valid_of : List (Turn D) → List (TableStatistics D)
  valid_of [] = []
  valid_of (producer stats ∷ turns) =
      if is_table_valid stats then stats ∷ valid_of turns else valid_of turns
  valid_of (consumer ∷ turns) = valid_of turns

  abbrev pub AllValid : List (TableStatistics D) → Type 0
  AllValid [] = Unit
  AllValid (t ∷ ts) = (is_table_valid t ≡ true) × AllValid ts

  AllValid-snoc :
      (ts : List (TableStatistics D)) (t : TableStatistics D)
      → AllValid ts
      → is_table_valid t ≡ true
      → AllValid (ts ++ (t ∷ []))
  AllValid-snoc [] t h v = (v, tt)
  AllValid-snoc (s ∷ ts) t h v = (h.0, AllValid-snoc ts t h.1 v)

  notified-valid : (t : TableStatistics D) → is_table_valid t ≡ true → notified (some t) ≡ t ∷ []
  unfolding notified is_table_valid
  notified-valid t h = ground (arith, h)

  -- A run from a queue that holds `queued`.
  run_turns-queued :
      (turns : List (Turn D)) (queue : StatsQueue D) (queued : List (TableStatistics D))
      → Holds queue queued
      → AllValid queued
      → (seen : List (TableStatistics D)) × (queue' : StatsQueue D) × (left : List
          (TableStatistics D))
        × (run_turns turns queue ≡ ok (seen, queue'))
        × Holds queue' left
        × (seen ++ left ≡ queued ++ valid_of turns)
  unfolding run_turns produce consume
  run_turns-queued [] queue queued h v = ([], queue, queued, refl, h, sym (append-nil queued))
  run_turns-queued (producer stats ∷ turns) queue queued h v =
      elim (Bool-cases (is_table_valid stats)) [
        | inr n ↦
            let (seen, queue', left, e, h', s) = run_turns-queued turns queue queued h v in
            (seen, queue', left, rw n e, h', rw n s)
        | inl y ↦
            let (q1, p, h1) = push-Holds queue queued stats h in
            let (seen, queue', left, e, h', s) =
              run_turns-queued turns q1 (queued ++ (stats ∷ [])) h1
                (AllValid-snoc queued stats v y) in
            (
              seen,
              queue',
              left,
              rw (y, p) e,
              h',
              rw y (s ∙ append_assoc queued (stats ∷ []) (valid_of turns)),
            )
      ]
  run_turns-queued (consumer ∷ turns) queue [] h v =
      let (seen, queue', left, e, h', s) = run_turns-queued turns queue [] h v in
      (seen, queue', left, rw (try_pop-Holds_nil queue h) (unfold notified in (rw e refl)), h', s)
  run_turns-queued (consumer ∷ turns) queue (t ∷ queued) h v =
      let (q1, p, h1, _) = try_pop-Holds_cons queue t queued h in
      let (seen, queue', left, e, h', s) = run_turns-queued turns q1 queued h1 v.1 in
      (t ∷ seen, queue', left, rw (p, notified-valid t v.0, e) refl, h', ap (◌∷◌ t) s)

  -- Whatever the order in which the tasks of the producer and of the consumer are called, on a new
  -- queue no call fails; what the observer is given and what is left in the queue are, in this
  -- order, the valid statistics that the producer was given.
  pub run_turns-valid_of :
      (turns : List (Turn D))
      → (seen : List (TableStatistics D)) × (queue : StatsQueue D) × (left : List
          (TableStatistics D))
        × (run_turns turns (new_queue (TableStatistics D)) ≡ ok (seen, queue))
        × Holds queue left
        × (seen ++ left ≡ valid_of turns)
  run_turns-valid_of turns =
      run_turns-queued turns (new_queue (TableStatistics D)) [] new_queue-Holds tt
