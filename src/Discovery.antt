-- ===== src/Discovery.antt =====
-- internal/wait0/discovery: the paths that the sitemaps of the origin name.
pub mod Sitemap
pub mod Once
