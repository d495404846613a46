-- ===== src/Netlink.antt =====
-- android/src/main/c/libnetlink.c and libnetlink.h: messages, their attributes and the dump loop.
pub mod Attr
pub mod Message
pub mod Dump
pub mod Send
mod Runs
