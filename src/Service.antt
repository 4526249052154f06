-- ===== src/Service.antt =====
-- The service behind the gateway, src/server_service: the views that answer requests by statements
-- to a database. MySQL is a parameter, a state with two operations; jsoncpp is one as far as the
-- members of a request go, which come in as arguments.
pub mod Numbers
pub mod Statements
pub mod Session
pub mod Views
pub mod Scramble
pub mod Create
pub mod Faults
pub mod Protocol
pub mod Tickets
pub mod Reading
