-- ===== src/Media.antt =====
-- The media hub, the sources that it reads, and the reader of Annex-B streams.
pub mod AnnexB
pub mod NalSource
pub mod FileSource
pub mod CameraSource
pub mod Hub
