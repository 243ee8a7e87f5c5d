-- ===== src/Collector.antt =====
-- internal/collector: metrics, the buffers between plugins, and the pipeline that runs them.
pub mod Metric
pub mod Buffer
pub mod Registry
pub mod Tagger
pub mod Scheduler
