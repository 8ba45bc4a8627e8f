-- ===== src/Mtp.antt =====
-- src/mtp: the MTP responder. Codes has the protocol's numbers, Container, Writer, Reader and Path the
-- encodings, World the server's state with what it stands on; the other definitions are the operations.
pub mod Codes
pub mod Container
pub mod Wire
pub mod Writer
pub mod Reader
pub mod Path
pub mod World
pub mod Transport
pub mod Reply
pub mod About
pub mod Session
pub mod Listing
pub mod Objects
pub mod Upload
pub mod Edit
pub mod Handle
pub mod Keeps
pub mod Inside
pub mod Names
pub mod Bears
pub mod Ordinary
pub mod Switch
pub mod Serve
pub mod Goes
pub mod Writing
pub mod Uploads
pub mod Halfway
pub mod Confined
pub mod Says
pub mod Answers
pub mod Dispatch
mod Tests
