-- ===== src/Selection/Correct.antt =====
-- Lemmas on selection/select.go: Select against the ads' own rows.
use openadsource.Registry.Bitset.{Bitset}
use openadsource.Registry.Snapshot.{Snapshot}
