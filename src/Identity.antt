-- ===== src/Identity.antt =====
-- internal/identity/service.go: who may do what in an org, its members, projects and invitations, and
-- the sessions of a user.
pub mod Env
pub mod Access
pub mod Sessions
pub mod Password
pub mod Projects
pub mod Organizations
pub mod Invitations
pub mod Members
