-- ===== src/History/WinamaxHistory/Stopping.antt =====
-- WinamaxHistory::stopLoading: the flag is set, and the tasks are polled in rounds until each has been
-- seen ready once. A task that was reset is never ready again. The model takes what the thread pool
-- answers in each round as an argument.
use phud.Prelude.{
  ℕ, zero, suc, ◌+◌, ◌≤◌, ◌<◌, ◌≡◌, refl, ◌∙◌, inl, inr, Bool, true, false, ◌&&◌, ◌==◌, List, [],
  ◌∷◌, length, arith, Bool-cases, if◌then◌else◌, All,
}
use phud.Prelude.Result.{Result, ok, err, out_of_fuel}

-- std::ranges::for_each over the tasks, where `true` is a task that is not reset: the tasks, and the
-- number of those that were ready
unfoldable pub poll : (ℕ → Bool) → ℕ → List Bool → List Bool × ℕ
poll ready i [] = ([], 0)
poll ready i (valid ∷ tasks) =
    let rest = poll ready (i + 1) tasks in
    if valid && ready i then (false ∷ rest.0, rest.1 + 1) else (valid ∷ rest.0, rest.1)

unfoldable pub stop_loop : ℕ → (ℕ → ℕ → Bool) → ℕ → ℕ → List Bool → Result (List Bool)
unfolding poll
stop_loop zero ready round finished tasks = err out_of_fuel
stop_loop (suc fuel) ready round finished tasks = elim (finished == length tasks) [
  | true ↦ ok tasks
  | false ↦
      let (tasks', n) = poll (ready round) 0 tasks in
      stop_loop fuel ready (round + 1) (finished + n) tasks'
]

-- WinamaxHistory::stopLoading behind m_stop = true
unfoldable pub stop_loading : ℕ → (ℕ → ℕ → Bool) → List Bool → Result (List Bool)
unfolding stop_loop
stop_loading fuel ready tasks = stop_loop fuel ready 0 0 tasks

-- The tasks that are not reset.
waiting : List Bool → ℕ
waiting [] = 0
waiting (valid ∷ tasks) = let n = waiting tasks in if valid then n + 1 else n

poll-waiting :
    (ready : ℕ → Bool) (i : ℕ) (tasks : List Bool)
    → ((poll ready i tasks).1 + waiting (poll ready i tasks).0 ≡ waiting tasks)
      × (length (poll ready i tasks).0 ≡ length tasks)
unfolding poll waiting
poll-waiting ready i [] = (omega arith, refl)
poll-waiting ready i (true ∷ tasks) = ground (arith, poll-waiting ready (i + 1) tasks)
poll-waiting ready i (false ∷ tasks) = ground (arith, poll-waiting ready (i + 1) tasks)

-- A round in which all tasks are ready resets them all.
poll-all :
    (ready : ℕ → Bool) (i : ℕ) (tasks : List Bool)
    → ((j : ℕ) → ready j ≡ true)
    → waiting (poll ready i tasks).0 ≡ 0
unfolding poll waiting
poll-all ready i [] h = refl
poll-all ready i (true ∷ tasks) h = ground (arith, h i, poll-all ready (i + 1) tasks h)
poll-all ready i (false ∷ tasks) h = ground (arith, poll-all ready (i + 1) tasks h)

waiting-le : (tasks : List Bool) → waiting tasks ≤ length tasks
unfolding waiting
waiting-le [] = omega arith
waiting-le (true ∷ tasks) = omega (arith, waiting-le tasks)
waiting-le (false ∷ tasks) = omega (arith, waiting-le tasks)

abbrev AllReset : List Bool → Type 0
AllReset = All (λ valid. valid ≡ false)

waiting_none : (tasks : List Bool) → waiting tasks ≡ 0 → AllReset tasks
unfolding waiting
waiting_none [] h = tt
waiting_none (true ∷ tasks) h = absurd (omega (arith, h))
waiting_none (false ∷ tasks) h = (refl, waiting_none tasks h)

-- The loop's result: every task is reset.
abbrev Ends : List Bool → Result (List Bool) → Type 0
Ends tasks r = (left : List Bool) × (r ≡ ok left) × (length left ≡ length tasks) × AllReset left

finished_loop :
    (fuel : ℕ) (ready : ℕ → ℕ → Bool) (round finished : ℕ) (tasks : List Bool)
    → finished ≡ length tasks
    → waiting tasks ≡ 0
    → Ends tasks (stop_loop (suc fuel) ready round finished tasks)
unfolding stop_loop
finished_loop fuel ready round finished tasks e w =
    let t : (finished == length tasks) ≡ true = ground (arith, e) in
    (tasks, rw (t, stop_loop), refl, waiting_none tasks w)

next_round :
    (fuel : ℕ) (ready : ℕ → ℕ → Bool) (round finished : ℕ) (tasks : List Bool)
    → (finished == length tasks) ≡ false
    → Ends (poll (ready round) 0 tasks).0 (
        stop_loop fuel ready
          (round + 1)
          (finished + (poll (ready round) 0 tasks).1)
          (poll (ready round) 0 tasks).0)
    → Ends tasks (stop_loop (suc fuel) ready round finished tasks)
unfolding stop_loop
next_round fuel ready round finished tasks n (left, e, l, a) =
    (left, rw (n, stop_loop) e, l ∙ (poll-waiting (ready round) 0 tasks).1, a)

-- The loop ends if all tasks are ready from `rounds` rounds on.
stop_loop-Ends :
    (fuel rounds round finished : ℕ) (ready : ℕ → ℕ → Bool) (tasks : List Bool)
    → rounds + 1 < fuel
    → finished + waiting tasks ≡ length tasks
    → ((k j : ℕ) → round + rounds ≤ k → ready k j ≡ true)
    → Ends tasks (stop_loop fuel ready round finished tasks)
stop_loop-Ends zero rounds round finished ready tasks f h r = absurd (omega arith)
stop_loop-Ends (suc zero) rounds round finished ready tasks f h r = absurd (omega arith)
stop_loop-Ends (suc (suc fuel)) zero round finished ready tasks f h r =
    let (sum, same) = poll-waiting (ready round) 0 tasks in
    let none = poll-all (ready round) 0 tasks (λ j. r round j (omega arith)) in
    elim (Bool-cases (finished == length tasks)) [
      | inl e ↦
          finished_loop (suc fuel) ready round finished tasks (ground (arith, e))
            (ground (arith, e, h))
      | inr n ↦ next_round (suc fuel) ready round finished tasks n (
          finished_loop fuel ready (round + 1) (finished + (poll (ready round) 0 tasks).1)
            (poll (ready round) 0 tasks).0 (omega (arith, sum, same, none, h)) none)
    ]
stop_loop-Ends (suc (suc fuel)) (suc rounds) round finished ready tasks f h r =
    let (sum, same) = poll-waiting (ready round) 0 tasks in
    elim (Bool-cases (finished == length tasks)) [
      | inl e ↦
          finished_loop (suc fuel) ready round finished tasks (ground (arith, e))
            (ground (arith, e, h))
      | inr n ↦ next_round (suc fuel) ready round finished tasks n (
          stop_loop-Ends (suc fuel) rounds (round + 1) (finished + (poll (ready round) 0 tasks).1)
            ready (poll (ready round) 0 tasks).0 (omega arith) (omega (arith, sum, same, h))
            (λ k j l. r k j (omega arith)))
    ]

waiting-valid :
    (tasks : List Bool) → All (λ valid. valid ≡ true) tasks → waiting tasks ≡ length tasks
unfolding waiting
waiting-valid [] h = refl
waiting-valid (valid ∷ tasks) h = ground (arith, h.0, waiting-valid tasks h.1)

-- stopLoading returns, with all tasks reset, within two rounds more than it takes until every task
-- is ready, if none of the tasks was reset before.
pub stop_loading_ends :
    (rounds : ℕ) (ready : ℕ → ℕ → Bool) (tasks : List Bool)
    → All (λ valid. valid ≡ true) tasks
    → ((k j : ℕ) → rounds ≤ k → ready k j ≡ true)
    → (left : List Bool) × (stop_loading (rounds + 2) ready tasks ≡ ok left)
      × (length left ≡ length tasks)
      × AllReset left
unfolding stop_loading
stop_loading_ends rounds ready tasks v r =
    stop_loop-Ends (rounds + 2) rounds 0 0 ready tasks (omega arith)
      (omega (arith, waiting-valid tasks v)) (λ k j l. r k j (omega arith))
