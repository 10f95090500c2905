-- ===== src/Console.antt =====
-- backend/console/session.py and session_manager.py: the output buffer of a console session and
-- the manager that shares the sessions.
pub mod Buffer
pub mod Manager
