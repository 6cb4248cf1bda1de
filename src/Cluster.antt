-- ===== src/Cluster.antt =====
-- internal/cluster.
pub mod Sparse
pub mod Tokens
pub mod Tfidf
pub mod Agglomerative
