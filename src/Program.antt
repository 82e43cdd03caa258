-- ===== src/Program.antt =====
-- phud/ and log/LoggingLevel.cpp: the command line, the configuration file, and what the program takes of
-- both.
pub mod Stop
pub mod Level
pub mod Arguments
pub mod Config
pub mod Configuration
