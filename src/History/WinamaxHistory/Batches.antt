-- ===== src/History/WinamaxHistory/Batches.antt =====
-- Loading in batches against loading one file after the other.
use phud.Prelude.{
  ℕ, zero, suc, ◌+◌, ◌≤◌, ◌<◌, ◌≡◌, refl, sym, ap, ◌∙◌, inl, inr, true, false, List, [], ◌∷◌, ◌++◌,
  Bytes, length, take, drop, ltb, arith, Bool-cases,
}
use phud.Prelude.Result.{Result, Error, ok, err, ◌>>=◌, Build, Result-cases}
use phud.Strings.Floats.{Doubles}
use phud.System.Times.{Times}
use phud.Threads.PlayerCache.{PlayerCache}
use phud.History.WinamaxHistory.{World, Flag, TaskResult, run_task, run_batch, batch_loop}

-- No read of m_stop sees it set.
pub record NeverStopped (flag : Flag) : Type 0 where
  pub at_batch : (i : ℕ) → flag.at_batch i ≡ false
  pub at_file : (i : ℕ) → flag.at_file i ≡ false
  pub in_task : (i : ℕ) → flag.in_task i ≡ false
  pub at_merge : (i : ℕ) → flag.at_merge i ≡ false

take_none : (n : ℕ) → take {A = Bytes} n [] ≡ []
take_none zero = refl
take_none (suc n) = refl

drop_none : (n : ℕ) → drop {A = Bytes} n [] ≡ []
drop_none zero = refl
drop_none (suc n) = refl

-- What follows a call may be rewritten at each value that it returns.
pub >>=-ext {ℓ κ} :
    {V : Type ℓ} {W : Type κ} (r : Result V) {f g : V → Result W}
    → ((v : V) → f v ≡ g v)
    → (r >>= f) ≡ (r >>= g)
>>=-ext (ok v) h = h v
>>=-ext (err x) h = refl

-- Runs of a list of tasks, by their two laws: a cache, the results and their number.
module _ {C T : Type 0} (task : Bytes → C → Result (C × T))
    (run : ℕ → List Bytes → C → Result (C × List T × ℕ))
    (run_none : (i : ℕ) (c : C) → run i [] c ≡ ok (c, [], 0))
    (run_cons : (i : ℕ) (file : Bytes) (batch : List Bytes) (c : C)
      → run i (file ∷ batch) c ≡ (
          task file c >>= λ first.
          run (i + 1) batch first.0 >>= λ rest. ok (rest.0, first.1 ∷ rest.1, rest.2 + 1))) where
  abbrev joined : C × List T × ℕ → C × List T × ℕ → C × List T × ℕ
  joined first rest = (rest.0, first.1 ++ rest.1, first.2 + rest.2)

  abbrev then_run : ℕ → List Bytes → C × List T × ℕ → Result (C × List T × ℕ)
  then_run i batch first = run i batch first.0 >>= λ rest. ok (joined first rest)

  then_run_same :
      (c : C) (r : Result (C × List T × ℕ)) → (r >>= λ rest. ok (joined (c, [], 0) rest)) ≡ r
  then_run_same c (ok (d, l, n)) = let e : 0 + n ≡ n = omega arith in rw e
  then_run_same c (err x) = refl

  -- One more task before the first part.
  more :
      (t : T) (first : C × List T × ℕ) (r : Result (C × List T × ℕ))
      → ((r >>= λ rest. ok (joined first rest)) >>= λ all. ok (all.0, t ∷ all.1, all.2 + 1))
        ≡ (r >>= λ rest. ok (joined (first.0, t ∷ first.1, first.2 + 1) rest))
  more t (c, l, m) (ok (d, k, n)) = let e : (m + n) + 1 ≡ (m + 1) + n = omega arith in rw e
  more t first (err x) = refl

  regroup :
      (t : T) (batch : List Bytes) (j : ℕ) (r : Result (C × List T × ℕ))
      → ((r >>= then_run j batch) >>= λ rest. ok (rest.0, t ∷ rest.1, rest.2 + 1))
        ≡ ((r >>= λ rest. ok (rest.0, t ∷ rest.1, rest.2 + 1)) >>= then_run j batch)
  regroup t batch j (ok first) = more t first (run j batch first.0)
  regroup t batch j (err x) = refl

  run_some :
      (i : ℕ) (file : Bytes) (batch : List Bytes) (c : C) {first : C × T}
      → task file c ≡ ok first
      → run i (file ∷ batch) c
        ≡ (run (i + 1) batch first.0 >>= λ rest. ok (rest.0, first.1 ∷ rest.1, rest.2 + 1))
  run_some i file batch c e =
      run_cons i file batch c
      ∙ ap
          (λ (r : Result (C × T)). r >>= λ first.
            run (i + 1) batch first.0 >>= λ rest. ok (rest.0, first.1 ∷ rest.1, rest.2 + 1))
          e

  run_err :
      (i : ℕ) (file : Bytes) (batch : List Bytes) (c : C) {x : Error}
      → task file c ≡ err x
      → run i (file ∷ batch) c ≡ err x
  run_err i file batch c e =
      run_cons i file batch c
      ∙ ap
          (λ (r : Result (C × T)). r >>= λ first.
            run (i + 1) batch first.0 >>= λ rest. ok (rest.0, first.1 ∷ rest.1, rest.2 + 1))
          e

  -- A batch is its beginning and then its end.
  run-split :
      (n i : ℕ) (batch : List Bytes) (c : C)
      → run i batch c ≡ (run i (take n batch) c >>= then_run (i + n) (drop n batch))
  run-split n i [] c =
      run_none i c
      ∙ sym (
          rw (take_none n, drop_none n)
            (ap (λ r. r >>= then_run (i + n) []) (run_none i c)
              ∙ ap (λ r. r >>= λ rest. ok (joined (c, [], 0) rest)) (run_none (i + n) c)))
  run-split zero i (file ∷ batch) c =
      let e : i + zero ≡ i = omega arith in
      sym (
        ap (λ r. r >>= then_run (i + zero) (file ∷ batch)) (run_none i c)
        ∙ (then_run_same c (run (i + zero) (file ∷ batch) c) ∙ ap (λ j. run j (file ∷ batch) c) e))
  run-split (suc n) i (file ∷ batch) c = elim (Result-cases (task file c)) [
    | inr (x, p) ↦
        run_err i file batch c p
        ∙ ap (λ r. r >>= then_run (i + suc n) (drop n batch))
            (sym (run_err i file (take n batch) c p))
    | inl (first, p) ↦
        let e : (i + 1) + n ≡ i + suc n = omega arith in
        run_some i file batch c p
        ∙ (ap (λ r. r >>= λ rest. ok (rest.0, first.1 ∷ rest.1, rest.2 + 1))
              (run-split n (i + 1) batch first.0
                ∙ ap (λ j. run (i + 1) (take n batch) first.0 >>= then_run j (drop n batch)) e)
            ∙ (regroup first.1 (drop n batch) (i + suc n) (run (i + 1) (take n batch) first.0)
                ∙ ap (λ r. r >>= then_run (i + suc n) (drop n batch))
                    (sym (run_some i file (take n batch) c p))))
  ]

drop-sum : (n m : ℕ) (s : List Bytes) → drop (n + m) s ≡ drop m (drop n s)
drop-sum zero m s = let e : zero + m ≡ m = omega arith in rw e
drop-sum (suc n) m [] = let e : suc n + m ≡ suc (n + m) = omega arith in rw (e, drop_none m)
drop-sum (suc n) m (c ∷ s) = let e : suc n + m ≡ suc (n + m) = omega arith in rw e (drop-sum n m s)

drop_all : (n : ℕ) (s : List Bytes) → length s ≤ n → drop n s ≡ []
drop_all zero [] h = refl
drop_all zero (c ∷ s) h = absurd (omega arith)
drop_all (suc n) [] h = refl
drop_all (suc n) (c ∷ s) h = drop_all n s (omega arith)

module _ (fp : Doubles) (ts : Times) (b : Build) (fuel : ℕ) (w : World)
    (go : NeverStopped w.flag) where
  abbrev Ran : Type 0
  Ran = PlayerCache × List (TaskResult fp ts b fuel w) × ℕ

  pub run_batch-none : (i : ℕ) (c : PlayerCache) → run_batch fp ts b fuel w i [] c ≡ ok (c, [], 0)
  unfolding run_batch
  run_batch-none i c = refl

  pub run_batch-cons :
      (i : ℕ) (file : Bytes) (batch : List Bytes) (cache : PlayerCache)
      → run_batch fp ts b fuel w i (file ∷ batch) cache ≡ (
          run_task fp ts b fuel w file cache >>= λ first.
          run_batch fp ts b fuel w (i + 1) batch first.0 >>= λ rest.
          ok (rest.0, first.1 ∷ rest.1, rest.2 + 1))
  unfolding run_batch
  run_batch-cons i file batch cache = rw (go.at_file i, go.in_task i, run_batch)

  round :
      (rounds size start : ℕ) (all : List Bytes) (c : PlayerCache)
      → ltb start (length all) ≡ true
      → batch_loop fp ts b fuel w (suc rounds) size start all c ≡ (
          run_batch fp ts b fuel w start (take size (drop start all)) c >>= λ first.
          batch_loop fp ts b fuel w rounds size (start + size) all first.0 >>= λ rest.
          ok (rest.0, first.1 ++ rest.1, first.2 + rest.2))
  unfolding batch_loop
  round rounds size start all c h = rw (h, go.at_batch start, batch_loop)

  last_round :
      (rounds size start : ℕ) (all : List Bytes) (c : PlayerCache)
      → ltb start (length all) ≡ false
      → batch_loop fp ts b fuel w (suc rounds) size start all c ≡ ok (c, [], 0)
  unfolding batch_loop
  last_round rounds size start all c h = rw (h, batch_loop)

  -- With a round for each file, and one for the end, the batches are the files one after the other.
  pub batch_loop-run_batch :
      (rounds size start : ℕ) (all : List Bytes) (c : PlayerCache)
      → 0 < size
      → 0 < rounds
      → length all < start + rounds
      → batch_loop fp ts b fuel w rounds size start all c
        ≡ run_batch fp ts b fuel w start (drop start all) c
  batch_loop-run_batch zero size start all c p q h = absurd (omega arith)
  batch_loop-run_batch (suc rounds) size start all c p q h =
      elim (Bool-cases (ltb start (length all))) [
        | inr n ↦
            last_round rounds size start all c n
            ∙ sym (
                ap (λ l. run_batch fp ts b fuel w start l c)
                  (drop_all start all (ground (arith, n)))
                ∙ run_batch-none start c)
        | inl m ↦
            let l = drop start all in
            round rounds size start all c m
            ∙ (>>=-ext (run_batch fp ts b fuel w start (take size l) c) (λ first.
                  ap
                    (λ (r : Result Ran).
                      r >>= λ rest. ok (rest.0, first.1 ++ rest.1, first.2 + rest.2))
                    (batch_loop-run_batch rounds size (start + size) all first.0 p
                        (ground (arith, m)) (omega arith)
                      ∙ ap (λ u. run_batch fp ts b fuel w (start + size) u first.0)
                          (drop-sum start size all)))
                ∙ sym (
                    run-split (run_task fp ts b fuel w) (run_batch fp ts b fuel w) run_batch-none
                      run_batch-cons size start l c))
      ]
