-- ===== src/Seeds.antt =====
-- data/scripts: the scripts that fill the databases and make test data.
pub mod Qdrant
pub mod Synthetic
