-- ===== src/Url.antt =====
-- UrlParser: the escaping of a URL and its taking apart (utils/url_parser.h, utils/url_parser.cpp).
pub mod Escape
pub mod Params
pub mod Parser
mod Runs
