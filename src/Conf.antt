-- ===== src/Conf.antt =====
-- src/conf.c: the MAC lists of the configuration and the level of the log.
pub mod MacList
pub mod DebugLevel
pub mod Lines
pub mod Rulesets
pub mod Scan
pub mod Options
pub mod Apply
pub mod Reading
pub mod Startup
pub mod Sane
pub mod Legal
pub mod Accepted
pub mod Whole
pub mod Loop
pub mod Printing
pub mod RuleWords
pub mod RuleRoundtrip
