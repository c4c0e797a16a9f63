-- ===== src/Tool.antt =====
-- signing-service/src/bin/policy-artifact.rs: the command line tool that makes a signed artifact. The
-- files that it reads and writes, and the JSON of a request (serde_json), are parameters.
pub mod Arguments
pub mod Artifact
pub mod Parsed
pub mod Made
