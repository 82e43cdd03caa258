-- ===== src/Lib.antt =====
-- phud: a poker head-up display. The program reads the text files that the poker site Winamax writes
-- while hands are played, keeps the hands, games and players in a database, and shows what it knows
-- of the players around the table in windows over it.
--
-- The parts and their files (the paths are below src/main/cpp of the repository):
--   Text, Strings: std::string_view and strings/StringViewUtils.cpp. A text is a
--     list of bytes; std::size_t is a number with its wrap-around written out (Prelude/Words).
--   TextFile: filesystem/TextFile.cpp, a reader with a current line. The stream is the bytes that are
--     left and its two flags.
--   Filesystem: filesystem/FileUtils.cpp. Patterns is matchesPattern, with its theory in Glob (what it
--     means to match), Parts, Floating, Matching, Kinds, Decision and Several; Listing is about the
--     listings of a directory; DirWatcher is filesystem/DirWatcher.cpp, as step relations of the thread
--     of the library and the caller.
--   Enums, Entities: language/EnumMapper.hpp and entities/. An assertion is a step of the result type
--     of Prelude/Result, with the build as a parameter: it fails in a debug build and is no code in a
--     release build. Exceptions, aborts and undefined behaviour are its errors.
--   Threads: threads/. The player cache and the queue's guarded members are functions on a state, each
--     call one step under its mutex; waitPop with push, and the periodic task, are step relations,
--     because there the mutexes do not cover the whole of a member.
--   History: history/PokerSiteHandBuilder.cpp and WinamaxHandBuilder.cpp. Fields holds the splitting of
--     lines and the seats; HandBuilder builds one hand, with PokerLine, Table and Actions for the parts
--     of its text. It calls TextFile for the lines, Strings for numbers and amounts, the player cache
--     for the seats and the hero, and ends in the constructors of Entities. GameHistory is
--     WinamaxGameHistory.cpp: the loop over the hands of a file, on top of HandBuilder, and the site
--     with the game. Its templates take a record of operations for the kind of game. WinamaxHistory is
--     WinamaxHistory.cpp: the files of a directory (Filesystem), the batches of tasks that call
--     GameHistory with one player cache, the merging of their sites (Entities/Site), and the files of a
--     table's window. PmuHistory and SiteHistory are PmuHistory.cpp and PokerSiteHistory.cpp.
--   Program: phud/ and log/LoggingLevel.cpp. Arguments is the command line, Config the configuration
--     file, read with TextFile, and Configuration what is made of both. Stop is how they end.
--   Db: db/. Insertor builds the INSERT statements of SqlInsertor.cpp from the Templates of
--     sqlQueries.hpp, Saving the statements that Database.cpp sends to save players, games and hands, and
--     Selector is SqlSelector.hpp. A statement is a text.
--   Statistics: statistics/PlayerStatistics and TableStatistics, the figures of a table by seat, and in
--     Flow the tasks of StatsProducer and StatsConsumer at the two ends of the queue of Threads.
--   Gui: gui/Position.cpp, in Position the turning of the seats so that the hero is at seat one, in
--     Coordinates the places of the seats in a window; TableWatcher is gui/TableWatcher.cpp
--     and TableService is gui/TableService.cpp.
--   Tests: the theorems at concrete values, among them a whole hand read from a text, and a directory
--     with one file that is loaded.
--
-- Loops that need not end run on fuel, and running out of it is an error of its own. TextFile/Seek says
-- how much fuel such a loop needs where it ends, and where it never does; the loop of split has as much
-- fuel as the text has characters and one more, which is enough since every round moves on. The
-- builders of a hand give each of their loops the whole of one fuel. The loop over the batches has as
-- much fuel as there are files and one more, which is enough since each batch takes a file. The
-- configuration file is read within more rounds than it has characters (Program/Config/Lines), and
-- the polling of stopLoading has two rounds more than it takes until every task is ready.
--
-- Parameters: the type double with its addition and std::from_chars (Strings/Floats), std::get_time
-- (System/Times), and the disk with what std::filesystem answers (Filesystem). No law is assumed of
-- them. The loading of a directory takes what each read of the flag m_stop sees, and the player cache
-- that a parse leaves which ends in an exception. The calculation of a place takes the scaling, which
-- is done in double. The database takes the printing of doubles and dates, and the watchers what the
-- operating system tells them.
--
-- Not modelled: the windows (FLTK) and the history service behind them, the database itself (SQLite)
-- with its transactions and what is read from it, the output of the logger, the main function, the
-- thread pool, and the hand builder of a second poker site, which is commented out. The tasks of the thread pool are run whole, in the order of their submission, so
-- the calls of the player cache by two files of one batch do not alternate. What a file gives does not
-- depend on the other players that its cache has (GameHistory/Sharing), and WinamaxHistory/Alone
-- compares the loading with files that are parsed alone, in which no order of tasks occurs. The
-- vendored libraries are left out. The line number of a reader is not bounded, and memory never runs out.
mod Prelude
pub mod Text
pub mod Strings
pub mod TextFile
pub mod Db
pub mod Enums
pub mod System
pub mod Entities
pub mod Threads
pub mod History
pub mod Statistics
pub mod Filesystem
pub mod Program
pub mod Gui
pub mod Tests
