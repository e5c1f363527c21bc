-- ===== src/Main.antt =====
-- The program's entry (src/main.c): the options of the command line, the context, and the loop that
-- starts the daemon again after each restart.
pub mod Command
pub mod Serve
pub mod Limit
pub mod Restart
