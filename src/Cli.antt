-- ===== src/Cli.antt =====
-- cli.py: the commands that decide whether a deployment goes on, and their exit codes.
pub mod Stored
pub mod Commands
pub mod Authorised
pub mod Minted
