-- ===== src/Cache/Store.antt =====
-- common/cache-store: a prepared cache in memory.
use lsfg_nx.Base.{ℕ, List}
use lsfg_nx.Graph.{Graph}
use lsfg_nx.Cache.{ManifestHeader, PassEntry, SlotEntry}

pub record LoadedPass : Type 0 where
  pub entry : PassEntry
  pub slots : List SlotEntry
  pub dksh : List ℕ

pub record Loaded : Type 0 where
  pub header : ManifestHeader
  pub passes : List LoadedPass
  pub graph : Graph

pub record PassInput : Type 0 where
  pub entry : PassEntry
  pub slots : List SlotEntry
  pub dksh : List ℕ

pub record Contents : Type 0 where
  pub header : ManifestHeader
  pub passes : List PassInput
  pub graph : Graph
