-- ===== src/History/WinamaxHistory/Loading.antt =====
-- Loading a history directory: what the tasks return, and the site that they are merged into.
use phud.Prelude.{
  ℕ, ◌+◌, ◌<◌, ◌≡◌, ◌≢◌, refl, sym, ap, ◌∙◌, subst, inl, inr, Bool, none, some, List, [], ◌∷◌, ◌++◌,
  append_assoc, append-nil, Bytes, length, arith, All, Bool-cases, if◌then◌else◌,
}
use phud.Prelude.Result.{Result, ok, ◌>>=◌, Build, Result-cases}
use phud.Strings.Floats.{Doubles}
use phud.System.Times.{Times}
use phud.Threads.PlayerCache.{PlayerCache, new_cache, extract_players}
use phud.Entities.Game.{CashGame, Tournament}
use phud.Entities.Site.{Site, merge, add_players}
use phud.History.GameHistory.{parse_game_history, winamax}
use phud.History.WinamaxHistory.{
  World, TaskResult, caught, run_task, run_batch, merge_loop, or_empty_site, get_files_and_notify,
  load_files, load, get_files, is_exception,
}
use phud.History.WinamaxHistory.Batches.{
  NeverStopped, batch_loop-run_batch, run_batch-cons, run_batch-none,
}
use phud.History.WinamaxHistory.Parsed.{
  IsFresh, empty_site, new_site-winamax, parse_game_history-IsFresh,
}
use phud.History.WinamaxHistory.Taking.{Fits, Has, is_empty-ne, passes_self, add_players-Took}

module _ (fp : Doubles) (ts : Times) (b : Build) (fuel : ℕ) (w : World) where
  open fp use {Double}
  open ts use {Time}

  abbrev IsFreshTask : TaskResult fp ts b fuel w → Type 0
  IsFreshTask none = Unit
  IsFreshTask (some site) = IsFresh site

  -- The games of the tasks that gave a site, in the order of the files.
  unfoldable pub cash_games_of : List (TaskResult fp ts b fuel w) → List (CashGame Double Time)
  cash_games_of [] = []
  cash_games_of (none ∷ tasks) = cash_games_of tasks
  cash_games_of (some site ∷ tasks) = site.cash_games ++ cash_games_of tasks

  unfoldable pub tournaments_of : List (TaskResult fp ts b fuel w) → List (Tournament Double Time)
  tournaments_of [] = []
  tournaments_of (none ∷ tasks) = tournaments_of tasks
  tournaments_of (some site ∷ tasks) = site.tournaments ++ tournaments_of tasks

  run_task-IsFresh :
      (file : Bytes) (c c' : PlayerCache) (o : TaskResult fp ts b fuel w)
      → run_task fp ts b fuel w file c ≡ ok (c', o)
      → IsFreshTask o
  unfolding run_task caught
  run_task-IsFresh file c c' none e = tt
  run_task-IsFresh file c c' (some site) e =
      elim (Result-cases
        (parse_game_history fp ts b fuel (w.disk.stem file) (w.disk.content file) c)) [
          | inr (x, p) ↦ absurd (elim (Bool-cases (is_exception x)) [
            | inl q ↦ ground (arith, rw (p, caught, q) at e)
            | inr q ↦ ground (arith, rw (p, caught, q) at e)
          ])
          | inl ((c1, s1), p) ↦
              let q : s1 ≡ site = ground (arith, rw (p, caught) at e) in
              subst IsFresh q (parse_game_history-IsFresh fp ts b fuel _ _ c c1 s1 p)
        ]

  module _ (go : NeverStopped w.flag) where
    run_batch-IsFresh :
        (i : ℕ) (batch : List Bytes) (c c' : PlayerCache) (tasks : List (TaskResult fp ts b fuel w))
        (n : ℕ)
        → run_batch fp ts b fuel w i batch c ≡ ok (c', tasks, n)
        → All IsFreshTask tasks × (n ≡ length batch)
    run_batch-IsFresh i [] c c' tasks n e =
        let q = sym (run_batch-none fp ts b fuel w go i c) ∙ e in
        let t : [] ≡ tasks = ground (arith, q) in (subst (All IsFreshTask) t tt, ground (arith, q))
    run_batch-IsFresh i (file ∷ batch) c c' tasks n e =
        let q = sym (run_batch-cons fp ts b fuel w go i file batch c) ∙ e in
        elim (Result-cases (run_task fp ts b fuel w file c)) [
          | inr (x, p) ↦ absurd (ground (arith, q, p))
          | inl ((c1, o), p) ↦ elim (Result-cases (run_batch fp ts b fuel w (i + 1) batch c1)) [
            | inr (x, r) ↦ absurd (ground (arith, q, p, r))
            | inl ((c2, l, m), r) ↦
                let ih = run_batch-IsFresh (i + 1) batch c1 c2 l m r in
                let t : o ∷ l ≡ tasks = ground (arith, q, p, r) in
                let k : m + 1 ≡ n = ground (arith, q, p, r) in
                (
                  subst (All IsFreshTask) t (run_task-IsFresh file c c1 o p, ih.0),
                  omega (arith, k, ih.1),
                )
          ]
        ]

    merged : Site Double Time → List (TaskResult fp ts b fuel w) → Site Double Time
    merged ret tasks = record ret {
      cash_games = ret.cash_games ++ cash_games_of tasks;
      tournaments = ret.tournaments ++ tournaments_of tasks;
    }

    merge-IsFresh :
        (ret site : Site Double Time)
        → ret.name ≡ winamax
        → IsFresh site
        → merge b ret site
          ≡ ok (record ret {
            cash_games = ret.cash_games ++ site.cash_games;
            tournaments = ret.tournaments ++ site.tournaments;
          })
    unfolding merge add_players
    merge-IsFresh ret site h f = rw (f.0, h, passes_self b winamax, f.1) refl

    merge_loop-merged :
        (i : ℕ) (ret : Site Double Time) (tasks : List (TaskResult fp ts b fuel w))
        → ret.name ≡ winamax
        → All IsFreshTask tasks
        → merge_loop fp ts b fuel w i ret tasks ≡ ok (merged ret tasks)
    unfolding merge_loop merged cash_games_of tournaments_of
    merge_loop-merged i ret [] h f = rw (append-nil ret.cash_games, append-nil ret.tournaments)
    merge_loop-merged i ret (none ∷ tasks) h f = merge_loop-merged (i + 1) ret tasks h f.1
    merge_loop-merged i ret (some site ∷ tasks) h f =
        let next : Site Double Time = record ret {
          cash_games = ret.cash_games ++ site.cash_games;
          tournaments = ret.tournaments ++ site.tournaments;
        } in
        let e : (if w.flag.at_merge i then ok ret else merge b ret site) ≡ ok next =
          rw (go.at_merge i) (merge-IsFresh ret site h f.0) in
        ap
          (λ (r : Result (Site Double Time)).
            r >>= λ ret'. merge_loop fp ts b fuel w (i + 1) ret' tasks)
          e
        ∙ (merge_loop-merged (i + 1) next tasks h f.1
            ∙ rw
                (
                  append_assoc ret.cash_games site.cash_games (cash_games_of tasks),
                  append_assoc ret.tournaments site.tournaments (tournaments_of tasks),
                )
                refl)

    load_files-merged :
        (size : ℕ) (all : List Bytes) (cache : PlayerCache)
        (tasks : List (TaskResult fp ts b fuel w)) (n : ℕ)
        → 0 < size
        → run_batch fp ts b fuel w 0 all (new_cache winamax) ≡ ok (cache, tasks, n)
        → load_files fp ts b fuel w size all ≡ (
            add_players b (merged (empty_site fp ts b fuel) tasks) (extract_players cache).0
            >>= λ loaded. ok (loaded, n))
    unfolding load_files
    load_files-merged size all cache tasks n p e =
        let k =
          batch_loop-run_batch fp ts b fuel w go (length all + 1) size 0 all (new_cache winamax) p
            (omega arith) (omega arith)
          ∙ e in
        let m =
          merge_loop-merged 0 (empty_site fp ts b fuel) tasks refl
            (run_batch-IsFresh 0 all (new_cache winamax) cache tasks n e).0 in
        rw (new_site-winamax fp ts b fuel, k, m) refl

    module _ (tasks : List (TaskResult fp ts b fuel w)) where
      start : Site Double Time
      start = merged (empty_site fp ts b fuel) tasks

      start_fields :
          (start.name ≡ winamax)
          × (start.cash_games ≡ cash_games_of tasks)
          × (start.tournaments ≡ tournaments_of tasks)
      unfolding start merged
      start_fields = (refl, refl, refl)

    load_some :
        (size : ℕ) (dir : Bytes) (observed : Bool) {site : Site Double Time} {n : ℕ}
        → get_files w.disk dir ≢ []
        → load_files fp ts b fuel w size (get_files w.disk dir) ≡ ok (site, n)
        → load fp ts b fuel w size dir observed ≡ ok (site, n)
    unfolding load or_empty_site get_files_and_notify
    load_some size dir observed ne e = rw (is_empty-ne (get_files w.disk dir) ne, e)

    -- What the loaded site holds, given the results of the files.
    pub record IsLoaded (site : Site Double Time) (cache : PlayerCache)
        (tasks : List (TaskResult fp ts b fuel w)) : Type 0 where
      pub name : site.name ≡ winamax
      pub cash : site.cash_games ≡ cash_games_of tasks
      pub tournaments : site.tournaments ≡ tournaments_of tasks
      pub players : All (λ p. Has site.players p.name) (extract_players cache).0

    -- The site that load makes of what the run of all files in one batch leaves.
    pub load-IsLoaded :
        (size : ℕ) (dir : Bytes) (observed : Bool) (cache : PlayerCache)
        (tasks : List (TaskResult fp ts b fuel w)) (n : ℕ)
        → 0 < size
        → get_files w.disk dir ≢ []
        → run_batch fp ts b fuel w 0 (get_files w.disk dir) (new_cache winamax)
          ≡ ok (cache, tasks, n)
        → Fits b (extract_players cache).0
        → (site : Site Double Time) × (load fp ts b fuel w size dir observed
            ≡ ok (site, length (get_files w.disk dir)))
          × IsLoaded site cache tasks
    unfolding merged start
    load-IsLoaded size dir observed cache tasks n p ne e f =
        let (start_name, start_cash, start_tournaments) = start_fields tasks in
        let all = get_files w.disk dir in
        let (site, added, k) =
          add_players-Took b (start tasks) (extract_players cache).0 start_name f in
        let count = (run_batch-IsFresh 0 all (new_cache winamax) cache tasks n e).1 in
        let r : load_files fp ts b fuel w size all ≡ ok (site, length all) =
          load_files-merged size all cache tasks n p e
          ∙ (ap (λ (x : Result (Site Double Time)). x >>= λ loaded. ok (loaded, n)) added
              ∙ ap (λ m. ok (site, m)) count) in
        (
          site,
          load_some size dir observed ne r,
          record {
            name = k.same_name ∙ start_name;
            cash = k.same_cash ∙ start_cash;
            tournaments = k.same_tournaments ∙ start_tournaments;
            players = k.taken;
          },
        )
