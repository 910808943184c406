-- ===== src/Config.antt =====
-- config/: the settings, and how rules, profiles and the command line make them.
pub mod Map
pub mod Settings
pub mod Rules
pub mod Resolver
pub mod Profiles
