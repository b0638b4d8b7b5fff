-- ===== src/Processor.antt =====
-- backend/src/nanexus_event_intelligence/processor/ and api/routes/processor.py: the jobs handed to
-- an external processor, and the API by which it takes them and gives its results back.
pub mod Service
pub mod Access
pub mod Queue
pub mod Subject
pub mod Submission
