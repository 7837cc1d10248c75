-- ===== src/Store.antt =====
-- What the file system asks of the layers below it, as programs, and what those promise.
pub mod ReadOnly
pub mod Prog
pub mod Spec
pub mod Run
pub mod Bind
pub mod Whole
