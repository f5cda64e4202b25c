-- ===== src/Site.antt =====
-- The home page of the web site under `dkron/website/src/`, as trees of elements without styling.
pub mod Plans
pub mod Pricing
pub mod Home
