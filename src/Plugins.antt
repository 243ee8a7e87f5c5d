-- ===== src/Plugins.antt =====
-- internal/pluginruntime: custom plugins, their manifests, and the gateway that runs them.
pub mod Names
pub mod Gateway
