-- ===== src/SongRequest.antt =====
-- The song request module: source/modules/songrequest and include/modules/songrequest.
pub mod Song
pub mod Youtube
pub mod Soundcloud
pub mod Vimeo
pub mod Fetch
pub mod Provider
