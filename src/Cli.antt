-- ===== src/Cli.antt =====
-- p2pshare-cli/src/main.rs: the commands of the command line.
pub mod Printed
pub mod Commands
pub mod Contacts
pub mod Sent
