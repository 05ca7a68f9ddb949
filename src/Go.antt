-- ===== src/Go.antt =====
-- What the program uses of Go's standard library: `strings`, `net` and `path/filepath`, on byte
-- strings. `net/url` stands behind an interface (Urlglobber/Url.antt).
pub mod Strings
pub mod HostPort
pub mod Glob
