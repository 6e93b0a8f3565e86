-- ===== src/Db.antt =====
-- include/db/db.h and source/db/db.cpp: parameters and results of PostgreSQL's binary protocol,
-- and the pool of connections. libpq itself is a parameter.
pub mod Wire
pub mod Results
pub mod Params
pub mod Connections
pub mod Query
