-- ===== src/Executor.antt =====
-- The package internal/executor: the image's name and the arguments of `docker run`. Processes are not
-- modelled.
pub mod Docker
pub mod Image
