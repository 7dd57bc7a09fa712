-- ===== src/Spec.antt =====
-- internal/builders/spec: the stages that run on the finished document.
pub mod Document
pub mod Prune
pub mod Reduce
pub mod Rewrite
