-- ===== src/Device.antt =====
-- device: the hub for devices that connect over websockets.
pub mod Transactions
pub mod Endpoint
pub mod Registry
pub mod Id
pub mod Wrp
pub mod Manager
pub mod WritePump
pub mod Rehasher
pub mod DeviceGate
pub mod Drain
pub mod Sending
