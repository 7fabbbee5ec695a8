-- ===== src/Migrator/Operations/Laws.antt =====
-- How an operation is prepared for a cluster, cmd/signozschemamigrator/schema_migrator: what
-- `OnCluster` and `WithReplication` change of an operation.
use k_o11y_otel_gateway.Prelude.{String, ◌≡◌, arith}
use k_o11y_otel_gateway.Migrator.Engines
use k_o11y_otel_gateway.Migrator.Operations.{Operation, on_cluster, with_replication, traits}

-- Neither setting of the cluster nor replication changes what an operation answers about itself.
pub traits-on_cluster : (c : String) (o : Operation) → traits (on_cluster c o) ≡ traits o
unfolding traits on_cluster
traits-on_cluster c o = ground arith

pub traits-with_replication : (o : Operation) → traits (with_replication o) ≡ traits o
unfolding traits with_replication
traits-with_replication o = ground arith

-- The later cluster is the one that counts.
pub on_cluster_last :
    (c d : String) (o : Operation) → on_cluster c (on_cluster d o) ≡ on_cluster c o
unfolding on_cluster Engines.engine_on_cluster
on_cluster_last c d o = ground arith

pub with_replication_idem :
    (o : Operation) → with_replication (with_replication o) ≡ with_replication o
unfolding with_replication Engines.engine_with_replication
with_replication_idem o = ground arith

pub on_cluster-with_replication :
    (c : String) (o : Operation)
    → on_cluster c (with_replication o) ≡ with_replication (on_cluster c o)
unfolding on_cluster with_replication Engines.engine_on_cluster Engines.engine_with_replication
on_cluster-with_replication c o = ground arith
