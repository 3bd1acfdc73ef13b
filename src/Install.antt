-- ===== src/Install.antt =====
-- src/install.c: the work directory of a project, its embedded files, and the setup that runs in it.
pub mod Tree
pub mod Files
pub mod Child
pub mod Setup
