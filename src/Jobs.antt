-- ===== src/Jobs.antt =====
-- Post jobs: the records, the store that the readers and the upload workers share
-- (backend/state.py), the use cases (backend/app/application/use_cases/post_job.py) and the upload
-- engine (backend/instagram_runtime/post_job_executor.py).
pub mod Record
pub mod Store
pub mod UseCases
pub mod Executor
pub mod Queue
