-- ===== src/Tests/Loading.antt =====
-- Loading a history directory that holds one file with one hand.
use phud.Prelude.{ℕ, ◌≡◌, ◌≢◌, refl, true, false, Option, some, List, [], ◌∷◌, Bytes, codes, arith}
use phud.Prelude.Result.{ok, debug}
use phud.Filesystem.{Disk, list_sub_dirs, list_txt_files_in_dir, contains_a_file_ending_with}
use phud.History.WinamaxHistory.{World, Flag, get_files, run_batch, caught, load}
use phud.History.WinamaxHistory.Batches.{NeverStopped}
use phud.History.WinamaxHistory.Acting.{CashActs, TournamentsAct, load-Acts}
use phud.History.WinamaxHistory.Taking.{Fits}
use phud.Threads.PlayerCache.{PlayerCache, new_cache, extract_players}
use phud.Entities.Site.{Site}
use phud.History.GameHistory.{winamax}
use phud.Tests.Samples.{whole, nineteen}
use phud.Tests.Hands.{cached, game_site, game_read}
use phud.Tests.Files.{disk_of, game_file}

abbrev one_file : Disk
one_file = disk_of (game_file ∷ codes "winamax_positioning_file.dat" ∷ [])

abbrev going : Flag
going = record {
  at_batch = λ i. false;
  at_file = λ i. false;
  in_task = λ i. false;
  at_merge = λ i. false;
}

going-NeverStopped : NeverStopped going
going-NeverStopped = record {
  at_batch = λ i. refl;
  at_file = λ i. refl;
  in_task = λ i. refl;
  at_merge = λ i. refl;
}

abbrev world : World
world = record { disk = one_file; flag = going; left = λ file cache. cache }

files_found : get_files one_file (codes "d") ≡ game_file ∷ []
unfolding get_files list_sub_dirs list_txt_files_in_dir contains_a_file_ending_with
files_found = refl

abbrev results : List (Option (Site ℕ Bytes))
results = some game_site ∷ []

one_result :
    run_batch whole nineteen debug 40 world 0 (game_file ∷ []) (new_cache winamax)
    ≡ ok (cached, results, 1)
unfolding run_batch
one_result = rw (game_read, caught) refl

files_read :
    run_batch whole nineteen debug 40 world 0 (get_files one_file (codes "d")) (new_cache winamax)
    ≡ ok (cached, results, 1)
files_read = rw files_found one_result

some_files : get_files one_file (codes "d") ≢ []
some_files e = let e' = rw files_found at e in cc e'

fit : Fits debug (extract_players cached).0
unfolding extract_players
fit = (refl, (refl, tt))

load-Acts_example :
    (site : Site ℕ Bytes) × (m : ℕ) × (load whole nineteen debug 40 world 4 (codes "d") true
      ≡ ok (site, m))
    × CashActs site
    × TournamentsAct site
load-Acts_example =
    load-Acts whole nineteen debug 40 world going-NeverStopped 4 (codes "d") true cached results 1
      (omega arith) some_files files_read fit
