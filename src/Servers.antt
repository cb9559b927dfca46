-- ===== src/Servers.antt =====
-- What the servers under examples/ share: handlers, the session map, the user's credentials and
-- the `sid` cookie.
pub mod Handler
pub mod Table
pub mod Since
pub mod Marks
pub mod Everywhere
pub mod Credentials
pub mod Cookies
