-- ===== src/Claim.antt =====
-- lib/provision/claim_proto.c: the JSON and PEM text of the enrollment protocol.
pub mod Json
pub mod Pem
mod Tests
