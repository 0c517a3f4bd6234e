-- ===== src/Pipeline.antt =====
-- src/herdr_routines/pipeline_run.py, pipeline_stages.py and the session check of
-- pipeline_watchdog.py: the stages of the overnight pipeline.
pub mod State
pub mod Stages
pub mod Sessions
pub mod Effect
pub mod Agent
pub mod CiFix
pub mod Run
