-- ===== src/Service.antt =====
-- include/net/netServiceAcceptor.hpp, netServiceConnector.hpp: who opens the sessions. Sockets,
-- resolvers and the strand are asio's: what they answer is an argument of each operation. A session
-- is its number in the order of creation.
pub mod Receiver
pub mod Common
pub mod Acceptor
pub mod Connector
pub mod Net
