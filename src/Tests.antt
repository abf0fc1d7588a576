-- ===== src/Tests.antt =====
-- Concrete inputs: a small history, and every theorem of the results list applied to it.
mod Data
mod Reads
mod Codecs
mod Segments
mod Trees
mod Dbs
mod Logs
mod Merges
mod Schemas
mod Conns
