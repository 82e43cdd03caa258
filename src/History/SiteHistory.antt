-- ===== src/History/SiteHistory.antt =====
-- history/PokerSiteHistory.cpp: the choice of the poker site by the directory.
use phud.Prelude.{ℕ, Bool, false, ◌||◌, Option, none, some, Bytes, if◌then◌else◌}
use phud.Prelude.Result.{Result, ok, ◌>>=◌, Build}
use phud.Strings.Floats.{Doubles}
use phud.System.Times.{Times}
use phud.Entities.Site.{Site}
use phud.History.PmuHistory
use phud.History.WinamaxHistory

-- The classes that derive from PokerSiteHistory.
pub data SiteHistory : Type 0 where
  pmu_history : SiteHistory
  winamax_history : SiteHistory

module _ (fp : Doubles) (ts : Times) (b : Build) (fuel : ℕ) (w : WinamaxHistory.World) where
  open fp use {Double}
  open ts use {Time}

  -- PokerSiteHistory::newInstance
  unfoldable pub new_instance : Bytes → Option SiteHistory
  new_instance history_dir =
      if PmuHistory.is_valid_history history_dir
      then some pmu_history
      else if WinamaxHistory.is_valid_history w.disk history_dir
      then some winamax_history
      else none

  -- PokerSiteHistory::load
  unfoldable pub load : ℕ → Bytes → Result (Option (Site Double Time))
  load batch_size history_dir =
      if PmuHistory.is_valid_history history_dir
      then ok (PmuHistory.load history_dir)
      else if WinamaxHistory.is_valid_history w.disk history_dir
      then (WinamaxHistory.load fp ts b fuel w batch_size history_dir false >>= λ r. ok (some r.0))
      else ok none

  -- PokerSiteHistory::isValidHistory
  unfoldable pub is_valid_history : Bytes → Bool
  is_valid_history history_dir =
      PmuHistory.is_valid_history history_dir || WinamaxHistory.is_valid_history w.disk history_dir
