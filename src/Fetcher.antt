-- ===== src/Fetcher.antt =====
-- internal/fetcher: a fetch of a page, its redirects and what is made of the answer. A text of a URL is parsed
-- by net/url, which is an argument; times and response headers that nobody reads are left out.
pub mod Ssrf
pub mod Classify
pub mod Trip
pub mod Fetch
