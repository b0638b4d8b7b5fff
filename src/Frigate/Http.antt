-- ===== src/Frigate/Http.antt =====
-- adapters/frigate/http_config.py, http_client.py, media_api.py and evidence_reader.py: the read-only
-- client of Frigate's HTTP API and what is served through it.
pub mod Config
pub mod Client
pub mod Api
pub mod Media
