-- ===== src/History.antt =====
-- history/: reading the hands of a game from the text files that the poker site writes.
pub mod Fields
pub mod HandBuilder
pub mod GameHistory
pub mod WinamaxHistory
pub mod PmuHistory
pub mod SiteHistory
