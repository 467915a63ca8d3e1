-- ===== src/Tests.antt =====
-- Each theorem applied to a concrete input, one child for each group of source files.
mod Reading
mod Binding
mod Connecting
mod Sending
mod Rows
mod Sockets
mod Sessions
mod Passwords
mod Parameters
mod Optimizing
mod Moments
mod Typing
mod Naming
mod Joining
mod Texts
