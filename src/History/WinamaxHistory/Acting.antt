-- ===== src/History/WinamaxHistory/Acting.antt =====
-- The winners of the hands of a loaded site.
use phud.Prelude.{
  ℕ, ◌+◌, ◌<◌, ◌≡◌, ◌≢◌, sym, ◌∙◌, subst, inl, inr, Bool, none, some, List, [], ◌∷◌, Bytes, arith,
  All, All-append, Bool-cases,
}
use phud.Prelude.Result.{ok, Build, Result-cases}
use phud.Strings.Floats.{Doubles}
use phud.System.Times.{Times}
use phud.Threads.PlayerCache.{PlayerCache, new_cache, extract_players}
use phud.Entities.Site.{Site}
use phud.History.GameHistory.{parse_game_history, winamax}
use phud.History.GameHistory.Loop.{WinnersAct}
use phud.History.GameHistory.Winners.{parse_game_history-AllHandsAct}
use phud.History.WinamaxHistory.{
  World, TaskResult, caught, run_task, run_batch, load, get_files, is_exception,
}
use phud.History.WinamaxHistory.Batches.{NeverStopped, run_batch-cons, run_batch-none}
use phud.History.WinamaxHistory.Taking.{Fits}
use phud.History.WinamaxHistory.Loading.{cash_games_of, tournaments_of, load-IsLoaded}

abbrev pub CashActs : {D T : Type 0} → Site D T → Type 0
CashActs site = All (λ g. All WinnersAct g.game.hands) site.cash_games

abbrev pub TournamentsAct : {D T : Type 0} → Site D T → Type 0
TournamentsAct site = All (λ t. All WinnersAct t.game.hands) site.tournaments

module _ (fp : Doubles) (ts : Times) (b : Build) (fuel : ℕ) (w : World) where
  abbrev TaskActs : TaskResult fp ts b fuel w → Type 0
  TaskActs none = Unit
  TaskActs (some site) = CashActs site × TournamentsAct site

  run_task-Acts :
      (file : Bytes) (c c' : PlayerCache) (o : TaskResult fp ts b fuel w)
      → run_task fp ts b fuel w file c ≡ ok (c', o)
      → TaskActs o
  unfolding run_task caught
  run_task-Acts file c c' none e = tt
  run_task-Acts file c c' (some site) e =
      elim (Result-cases
        (parse_game_history fp ts b fuel (w.disk.stem file) (w.disk.content file) c)) [
          | inr (x, p) ↦ absurd (elim (Bool-cases (is_exception x)) [
            | inl q ↦ ground (arith, rw (p, caught, q) at e)
            | inr q ↦ ground (arith, rw (p, caught, q) at e)
          ])
          | inl ((c1, s1), p) ↦
              let q : s1 ≡ site = ground (arith, rw (p, caught) at e) in
              subst (λ s. CashActs s × TournamentsAct s) q
                (parse_game_history-AllHandsAct fp ts b fuel _ _ c c1 s1 p)
        ]

  module _ (go : NeverStopped w.flag) where
    run_batch-Acts :
        (i : ℕ) (batch : List Bytes) (c c' : PlayerCache) (tasks : List (TaskResult fp ts b fuel w))
        (n : ℕ)
        → run_batch fp ts b fuel w i batch c ≡ ok (c', tasks, n)
        → All TaskActs tasks
    run_batch-Acts i [] c c' tasks n e =
        let q = sym (run_batch-none fp ts b fuel w go i c) ∙ e in
        let t : [] ≡ tasks = ground (arith, q) in subst (All TaskActs) t tt
    run_batch-Acts i (file ∷ batch) c c' tasks n e =
        let q = sym (run_batch-cons fp ts b fuel w go i file batch c) ∙ e in
        elim (Result-cases (run_task fp ts b fuel w file c)) [
          | inr (x, p) ↦ absurd (ground (arith, q, p))
          | inl ((c1, o), p) ↦ elim (Result-cases (run_batch fp ts b fuel w (i + 1) batch c1)) [
            | inr (x, r) ↦ absurd (ground (arith, q, p, r))
            | inl ((c2, l, m), r) ↦
                let ih = run_batch-Acts (i + 1) batch c1 c2 l m r in
                let t : o ∷ l ≡ tasks = ground (arith, q, p, r) in
                subst (All TaskActs) t (run_task-Acts file c c1 o p, ih)
          ]
        ]

    games-Act :
        (tasks : List (TaskResult fp ts b fuel w))
        → All TaskActs tasks
        → All (λ g. All WinnersAct g.game.hands) (cash_games_of fp ts b fuel w tasks)
          × All (λ t. All WinnersAct t.game.hands) (tournaments_of fp ts b fuel w tasks)
    unfolding cash_games_of tournaments_of
    games-Act [] a = (tt, tt)
    games-Act (none ∷ tasks) a = games-Act tasks a.1
    games-Act (some site ∷ tasks) a =
        let (cash, tournaments) = games-Act tasks a.1 in
        (
          All-append _ site.cash_games (cash_games_of fp ts b fuel w tasks) a.0.0 cash,
          All-append _ site.tournaments (tournaments_of fp ts b fuel w tasks) a.0.1 tournaments,
        )

    -- In every hand of the site that is loaded from a directory each winner with a name has an
    -- action, if there are files, their parsing one after the other returns, no read of the flag
    -- sees it set, and in a debug build the cached players carry the name of the site.
    pub load-Acts :
        (size : ℕ) (dir : Bytes) (observed : Bool) (cache : PlayerCache)
        (tasks : List (TaskResult fp ts b fuel w)) (n : ℕ)
        → 0 < size
        → get_files w.disk dir ≢ []
        → run_batch fp ts b fuel w 0 (get_files w.disk dir) (new_cache winamax)
          ≡ ok (cache, tasks, n)
        → Fits b (extract_players cache).0
        → (site : Site fp.Double ts.Time) × (m : ℕ) × (load fp ts b fuel w size dir observed
            ≡ ok (site, m))
          × CashActs site
          × TournamentsAct site
    load-Acts size dir observed cache tasks n p ne e f =
        let (site, r, k) =
          load-IsLoaded fp ts b fuel w go size dir observed cache tasks n p ne e f in
        let (cash, tournaments) =
          games-Act tasks
            (run_batch-Acts 0 (get_files w.disk dir) (new_cache winamax) cache tasks n e) in
        (
          site,
          _,
          r,
          subst (All (λ g. All WinnersAct g.game.hands)) (sym k.cash) cash,
          subst (All (λ t. All WinnersAct t.game.hands)) (sym k.tournaments) tournaments,
        )
