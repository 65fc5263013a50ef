-- ===== src/Launcher.antt =====
-- src/server_launcher.c: the program that starts the real server and loads the compatibility hook
-- into it.
pub mod Text
pub mod Run
pub mod Arguments
pub mod Reader
pub mod Process
