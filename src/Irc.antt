-- ===== src/Irc.antt =====
-- The IRC client: source/irc and include/irc.
pub mod Enums
pub mod ReplyCode
pub mod Tables
pub mod Tags
pub mod Classify
pub mod Connection
pub mod Message
pub mod Rfc2812
pub mod Client
