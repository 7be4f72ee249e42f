-- ===== src/Client.antt =====
-- client.go: endpoints, connections and the calls of the gRPC clients.
pub mod Endpoint
pub mod Rpc
pub mod Connection
pub mod Calls
