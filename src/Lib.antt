-- ===== src/Lib.antt =====
-- The policy signing service (signing-service/): it signs the resource policy of a confidential
-- deployment when an organisation's owner vouches, through a keyring, for the deployer who signed
-- the deployment's descriptor.
--
-- How the parts interact. Everything that is signed or hashed is a list of labelled records in the
-- CE-v1 encoding (Canonical). An owner signs a keyring of members (Keyring), a member signs a
-- deployment descriptor (Descriptor), and the owners' keys are kept in SQLite (OwnerStore). Policy
-- follows the chain from the owner to the descriptor, renders the template and signs an artifact of
-- it. Genpolicy makes the agent policy that the artifact holds: it renders the manifest of the pod,
-- runs the generator of the Kata project on it and normalises what that prints. Service is the
-- handlers that call all of these, and Tool is a command that does the same from files.
--
-- The files:
--   Prelude      helpers: tests on native numbers, lists, byte strings, results, a stable sort,
--                decimal numerals, and the functions of `str` that the service calls
--   External     the operations of other packages, as a record of functions, and their laws
--   Canonical    signing-service/src/canonical.rs: ce_v1_bytes, ce_v1_hash. Canonical/Layout,
--                Decode, Binding and Binds hold the theory of the encoding: its layout, a reader,
--                and what equal encodings and equal hashes say
--   Keyring      signing-service/src/keyring.rs: the records, canonical_keyring_bytes,
--                verify_keyring, find_deployer_pubkey. Keyring/Verify, Order and Binding: proofs
--   Descriptor   signing-service/src/descriptor.rs: the records. Descriptor/Canonical and Records:
--                the hashes of the parts and the records of the descriptor; Unique and Verify:
--                validate_unique_resource_names and verify_descriptor; Parts, Spec, Binding and
--                Signed: proofs
--   OwnerStore   signing-service/src/owner_store.rs: the operations, each with the database that it
--                leaves. OwnerStore/Table: the tables and the SQL statements; Select, Cases,
--                Invariant, Atomic, Refine, Read and Rotate: proofs
--   Policy       signing-service/src/policy.rs: the records. Policy/Inputs, Floor, Render, Metadata
--                and Sign: the functions; Accept, Message, Checked, Roundtrip, Binding, Purposes,
--                Slots and Sudo: proofs
--   Genpolicy    signing-service/src/genpolicy.rs. Genpolicy/Value: JSON values; Environment, Keys
--                and Shape: what the environment and the descriptor say; Manifest: the containers,
--                the volumes and the pod (Parts, App, Proxy, Ingress, Init, Scripts, Volumes, Pod);
--                Normalize: the correction of the generated policy (Text, Mounts) with its texts in
--                Rego; Settings and Run: the run of the generator. Limits, Required, Stripped, Ran,
--                Manifest/Renders, Agree and Declared, Normalize/Insert, Stable, Update, Table,
--                Placed and Correct: proofs
--   Service      signing-service/src/main.rs: the handlers. Service/Auth: the bearer
--                tokens and the switches; Rotation, Signing, Generated and Tokens: proofs
--   Tool         signing-service/src/bin/policy-artifact.rs. Tool/Arguments: the flags;
--                Artifact: main; Parsed and Made: proofs
--   Examples     a concrete External, runs of the model, and the theorems at concrete inputs
--
-- How the code is read. A String, a Vec<u8>, a fixed array, a UUID, a key and a signature are lists
-- of bytes, which are natural numbers; an instant is a natural number. An error is a constructor
-- named for its message, and a panic is an error too. The lengths of CE-v1 are tested against 2^16
-- and 2^32 as the source tests them. An INTEGER of SQLite is the 64-bit pattern of its two's
-- complement, so version + 1 and version - 1 wrap at 2^64, as in a release build (a debug build,
-- the default of the Dockerfile, panics at the ends of the range), and a version from 2^63 on is
-- negative.
-- Every call of SQLite may fail: a parameter of type Storage says which do not. A transaction that
-- is dropped leaves the database as it was. The handler of a rotation reads one database and writes
-- another, so other requests may be served in between. Loops are recursion on their lists; the
-- reader of Canonical/Decode is on fuel, the number of bytes, and every record takes some, and
-- decimal numerals are on fuel, the number plus one. A serde_json object is its fields in the order
-- of their keys, as the crate keeps them without its feature preserve_order. A change through a
-- mutable reference into a JSON value (pointer_mut) is a new value. genpolicy.rs reads the build
-- that is not a test: cfg!(test) is false. A directory is the tree of its entries, so copy_dir_all
-- is recursion on it, and Path::join is that of a relative path.
--
-- Parameters. SHA-256, Ed25519, hex, base64, UUID and RFC 3339 are a record External. KeyLaws,
-- TextLaws, HashLaw and ByteLaw are the documented behaviour that a theorem names when it uses it: a
-- signature verifies under its key, what is printed reads back, digests have 32 bytes. No theorem
-- supposes that SHA-256 has no collision: the theorems on binding say that two messages agree or
-- that they exhibit a collision. The text of the template, the JSON parsers, the environment and the
-- random seed are parameters too. So are the printers of JSON and YAML (Printer), f64 (Floats), the
-- files, the work directory and the process of the generator (Host, with a state of the disk that
-- every operation is given and leaves), and the reading of a request by the tool (Reader). The
-- handlers and the tool take the generator as a function; run_with_log_encryption is one.
--
-- Not modelled. The JSON form of the records (serde). In main.rs the server, its routes, health and
-- shutdown. In policy-artifact.rs the printing of the usage and of the artifact. The text of errors
-- beyond their names, and the directory of the generator's run after it. The Rego templates
-- (templates/), which the key broker evaluates, and the meaning of the Rego that Genpolicy puts in:
-- it is text here. Opening the database file, and the pragmas of SQLite.
mod Prelude
pub mod External
pub mod Canonical
pub mod Keyring
pub mod Descriptor
pub mod OwnerStore
pub mod Policy
pub mod Genpolicy
pub mod Service
pub mod Tool
mod Examples
