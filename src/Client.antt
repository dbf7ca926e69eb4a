-- ===== src/Client.antt =====
-- pkg/client: what the client makes of the server's answers.
pub mod Paging
