-- ===== src/Lib.antt =====
-- The Rust core of outbe-circuits: the incremental Merkle tree, the field codec, the wire format of
-- verifier calls, the note hashes, signatures, keys and ownership witnesses.
--
-- Imt (crates/outbe-protocol/src/protocol/imt.rs): Imt.Node has the depths and the node hash,
-- Imt.Tree the stored tree with `new`, `append`, `root` and `inclusion_path`, Imt.Frontier the
-- stateless `frontier_append`, Imt.Path the paths. Imt.Spec is the abstract view: the tree of a
-- list of leaves, padded with empty leaves. Imt.Levels, Imt.Trailing, Imt.Append and
-- Imt.FrontierLoop hold lemmas, Imt.AppendLaws, Imt.NewLaws, Imt.PathLaws, Imt.Binding and
-- Imt.FrontierLaws theorems. `append` returns the tree together with its result, since it changes
-- the tree in place.
--
-- Codec (crates/outbe-protocol/src/codec.rs): Codec.Bytes has the canonical decoder and the byte
-- arrays, Codec.Scalars the types of one field element, Codec.Limbs the three limbs of a uint256,
-- Codec.Sets the sorted sets. Codec.Canonical, Codec.Arrays, Codec.LimbLaws, Codec.SetLaws and
-- Codec.SortLaws hold the theorems, Codec.Ascents lemmas on sorted keys. `sort_unstable_by_key` is
-- an insertion sort; which of the items of equal keys is kept is not said by any theorem.
--
-- Zkproof (crates/outbe-protocol/src/protocol/zkproof.rs): Zkproof.Words reads words, Zkproof.Call
-- decodes the arguments of a verifier call, Zkproof.PublicWords the public words of a proof.
-- Zkproof.Total is about panics, on bytes from anywhere: the slices, the copy of the hash, the
-- writes to the array of words, the `expect` and the `debug_assert` are modelled, the last as a
-- debug build runs it.
--
-- Verifier (crates/outbe-zk-backend/src/barretenberg/mod.rs) splits a combined proof for the
-- foreign verifier.
--
-- Srs (crates/outbe-zk-backend/src/barretenberg/srs.rs) sets up the reference string: Srs.Process
-- has the state of the process (the statics, the files, the calls that the foreign library has had)
-- and what it finds around it, Srs.Pins the pinned digests. Srs.Checked, Srs.Trust, Srs.Guards and
-- Srs.Local hold lemmas and theorems. Only three numbers of points have a pinned digest; the code
-- lets points of other numbers pass unchecked, and `IsPinned` asks nothing of them. Backend
-- (crates/outbe-zk-backend/src/barretenberg/mod.rs, crates/outbe-zk-backend/src/witness.rs) has the
-- entry points: Backend.Prove proves and verifies, Backend.Steps and Backend.OneShot take the entry
-- points as the steps of one process, Backend.Ready says what a successful setup promises,
-- Backend.Agreement compares the two ways to verify. The lock of the backend makes each call one
-- step; other programs may change the files between two steps. A write that is cut short, and the
-- variables of the environment that change while the process runs, are not modelled.
--
-- Registry (crates/outbe-zk-canonical/build.rs, crates/outbe-zk-canonical/src/lib.rs) has the
-- manifest and what the build script makes of it: Registry.Load the loaded versions and the
-- registry, Registry.Version the order of versions, Registry.Heads the version of each module that
-- gets types, Registry.Chains the bindings of the L2 chains, Registry.Search the lookup by chain
-- with the search of the standard library. Generated Rust text is modelled by the entries that it
-- denotes. Registry.Ordered has the ordered maps; Registry.Heads.Latest, Registry.Search.Halving,
-- Registry.Chains.Bound, Registry.Enabled and Registry.Declared hold lemmas and theorems.
-- Registry.Widths counts the field words of an ABI and the words of a proof, Registry.Flatten has
-- the field vectors of the generated circuits, Registry.Decoder the generated decoder of public
-- inputs, Registry.Combined the generated encoder of combined proofs, where the decoder that it
-- calls is an argument, Registry.Alloy and Registry.FromAlloy the generated conversions; a type
-- that stops the build or the compiler is a `panic` of the value. Registry.Generate is the whole
-- build. Registry.Counted, Registry.ReadBack, Registry.RoundTrip, Registry.AlloyLeaves,
-- Registry.AlloyLaws, Registry.Verified and the end of Registry.Combined hold lemmas and theorems.
-- The files of a version are found by its module and version, so names with a slash are out of
-- scope, and a file that is there can be read.
--
-- Release (xtask/src/main.rs) freezes circuits: Release.Names has labels and version numbers,
-- Release.Workspace the manifest with the frozen files and their reconciliation, Release.Check the
-- comparison with what the tools derive, Release.Freeze the minting of new versions, Release.Run
-- the commands, the search for tools and the copy that a check compiles. Release.Bumps,
-- Release.Reconcile, Release.Identity, Release.Kept, Release.Fresh, Release.Reproduced and the end
-- of Release.Run hold lemmas and theorems. The key that `bb` derives, and what `nargo` compiles,
-- are functions of their input. The scratch directory of a check is one outcome, that of creating
-- and filling it: the errors of the copy one by one, its removal and symbolic links in the Noir
-- tree are not modelled.
--
-- Hash (crates/outbe-protocol/src/primitive/hash.rs) has the hash formulas, Pool
-- (crates/outbe-protocol/src/protocol/shielded_pool.rs) the tagged hash, Notes.Paynote,
-- Notes.EmitMint and Notes.Pledgenote (crates/outbe-zk-canonical/src/paynote/hash.rs,
-- emit_mint/hash.rs and pledgenote.rs beside it) the notes of the three pools; Notes.NoteLaws and
-- Notes.Binding hold the theorems. A hash into a finite field has collisions, so a theorem on what
-- a hash binds does not suppose that there are none, nor is it content with one somewhere: where
-- its conclusion fails, two different pairs that the two computations hash in the same step have
-- one value (`Clash`).
--
-- Signature.Sign (crates/outbe-protocol/src/primitive/signature.rs) signs and verifies,
-- Signature.Accepted holds lemmas and Signature.SignLaws the theorems. The loop of `sign_bytes` has
-- no bound in the code; here it has fuel, and a theorem says how much suffices. Curve has the curve
-- helpers (crates/outbe-protocol/src/primitive/curve.rs).
--
-- Keys (crates/outbe-protocol/src/protocol/key.rs, primitive/exchange.rs and primitive/kdf.rs
-- beside it) has signers and the consent box: what a random generator draws is an argument.
-- Ownership (crates/outbe-protocol/src/protocol/entity.rs,
-- crates/outbe-zk-canonical/src/ownership.rs) has entities as records of what an implementation
-- provides, and the ownership witness; the generated `Witness` and `PublicInputs` are records with
-- the fields that the code sets. OwnershipRuns has the examples of both.
--
-- Demo (crates/outbe-zk-canonical/src/demo_tribute.rs) extends the ownership witness with an
-- inclusion path of a tree of Imt; its proof generator and verifier are arguments. Demo.Inclusion
-- holds what the circuit folds, with the lemmas and the theorem.
--
-- Derive (crates/outbe-protocol-derive/src/lib.rs) is the derive macro of entities as a function of
-- the struct that `syn` has parsed (Derive.Syntax): the roles of the fields and the order of a
-- group. Derive.Expansion has `expand`; the generated implementations are modelled by what they
-- read, encode and require. Spans of errors are left out. Derive.Ordering holds the lemmas and the
-- theorem on the order of a group.
--
-- Error (crates/outbe-protocol/src/error.rs) has the error type. Bytes and Slices hold what the
-- parts use of big-endian bytes and of slices, Prelude the rest.
--
-- The field and the hasher are not code of the repository. Field states them as interfaces:
-- PrimeField is `ark_bn254::Fr` with the laws that `ark_ff` documents, PoseidonHasher the sponge of
-- `outbe_poseidon`, of which theorems ask only that it answers on pairs. Curve.Suite bundles the
-- fields with the Grumpkin curve and the digest of `blake2`; IsGroup has the laws of a group.
-- FieldRuns shows that the laws can hold.
--
-- Numbers are natural numbers; a machine integer is bounded by a hypothesis or by `%`. `usize` has
-- 64 bits. Any other loop recurs on the rounds that are left. An index out of range, a failed
-- `expect` and an overflow that the code checks are results of their own (`panic`, `err`).
--
-- Not modelled: the text that the build script writes (imports, names of types), the Noir circuits
-- (another language), and the key serialisation of `ark_serialize`.
pub mod Prelude
pub mod Error
pub mod Field
pub mod FieldRuns
pub mod Bytes
pub mod Slices
pub mod Codec
pub mod Hash
pub mod Imt
pub mod Text
pub mod Hex
pub mod Zkproof
pub mod Verifier
pub mod Srs
pub mod Backend
pub mod Registry
pub mod Release
pub mod Pool
pub mod Notes
pub mod Curve
pub mod Signature
pub mod Keys
pub mod Ownership
pub mod OwnershipRuns
pub mod Demo
pub mod Derive
