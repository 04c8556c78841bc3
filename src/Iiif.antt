-- ===== src/Iiif.antt =====
-- The IIIF Image API URL parser (src/iiifparser/rust): its domain types, the grammar that gates
-- classification, the component parsers and the classifier of request URIs.
pub mod Domain
pub mod Grammar
pub mod Params
pub mod Request
pub mod Tests
mod Examples
