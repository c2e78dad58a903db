-- ===== src/Examples.antt =====
-- The theorems at concrete inputs, with the test data that they need.
mod Tracking
mod Codecs
mod Files
mod Histories
mod Server
mod Listings
mod Fragments
mod Serving
mod Renames
