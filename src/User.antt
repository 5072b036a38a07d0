-- ===== src/User.antt =====
-- The programs of users: the shell of pkg/app/sh with the library of pkg/lib that it reads by, and the
-- samples of pkg/app.
pub mod Editor
pub mod Fish
pub mod Paths
pub mod Shell
pub mod SpinLock
pub mod Stdin
pub mod Stdout
