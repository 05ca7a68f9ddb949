-- ===== src/Urlglobber.antt =====
-- pkg/urlglobber: the matcher of credential keys and images, and the globbed domain of an image.
pub mod Url
pub mod Matcher
pub mod Globber
