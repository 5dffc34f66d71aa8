-- ===== src/Virsh.antt =====
-- internal/virsh: the client of `virsh`.
pub mod Graphics
pub mod Listen
pub mod Client
pub mod FileStem
pub mod Tables
pub mod Commands
pub mod Hostdevs
pub mod TpmXml
