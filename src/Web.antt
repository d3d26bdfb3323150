-- ===== src/Web.antt =====
-- The Django application server/environments: who a request is from, what a browser may see, and the
-- registry of templates. Tokens models auth.py and the API tokens of models.py, Viewers webauth.py,
-- Login cli_auth.py, Templates the registry in api.py, and Endpoints the operations on environments
-- there.
pub mod Tokens
pub mod Viewers
pub mod Login
pub mod Templates
pub mod Endpoints
mod Tests
