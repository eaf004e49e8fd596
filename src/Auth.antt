-- ===== src/Auth.antt =====
-- Who may sign in: UsersService's writes of accounts and AuthService's login.
pub mod Accounts
pub mod Login
