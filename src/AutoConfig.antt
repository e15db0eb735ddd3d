-- ===== src/AutoConfig.antt =====
-- The pipeline that turns an OpenAPI document into KrakenDEndpoints: operator/internal/autoconfig.
pub mod Generate
pub mod Plan
mod Tests
