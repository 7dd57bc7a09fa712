-- ===== src/Route.antt =====
-- internal/parsers/routebody: the bodies of `Responses:` and `Parameters:` under swagger:route.
pub mod Responses
pub mod Parameters
