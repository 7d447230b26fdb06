-- ===== src/Render.antt =====
-- ui/render.cpp: the state behind the panels (the lists of orders, the form, the order events).
pub mod Lists
pub mod Events
pub mod Polls
pub mod Market
pub mod Form
pub mod Cancels
pub mod Symbols
pub mod Format
mod Examples
