-- ===== src/Lib.antt =====
-- The core of factomd: the objects that its blocks are made of, as bytes, and the handlers that turn
-- client messages into a process list.
--
-- A client pays for an entry by a commit and shows the entry by a reveal. The processor checks the
-- timestamp of the message (process/replay.go), then hands it to its handler (process/processor.go),
-- which charges the entry credits, appends the message to the server's process list (consensus) and
-- puts what it cannot use yet into the pool of orphans (process/mempool.go). The messages of a block
-- end up as the entries of the Entry Credit block (common/ecblock.go) and of the entry blocks. At the end
-- of a period the open blocks are sealed; the directory block (common/directoryBlock.go) holds the keys
-- of the others and the hashes of the directory block before it, and all are stored (database/ldb).
--
-- The files and the code that they model, by path from the root of the repository:
--   Common      numbers, lists, maps and results; Common/Exec is Go's pair of a state and an error
--   VarInt      common/varint.go: encode_var_int is EncodeVarInt, decode_var_int is DecodeVarInt
--   Buffer      what the readers use of bytes.Buffer and encoding/binary
--   Slice       the readers that take from the front of a byte slice
--   Hash        common/hash.go
--   Credit      common/commitentry.go, common/commitchain.go, common/increasebalance.go,
--               common/minutenumber.go, common/serverindexnumber.go
--   EcBlock     common/ecblock.go: EcBlock/Codec has the Marshal and Unmarshal methods
--   Merkle      common/merkle.go: Merkle/Root has the root level by level that the array is held against
--   EBlock      common/eblock.go
--   Entry       common/entry.go, and EntryCost of util/misc.go in Entry/Cost
--   Chains      common/echain.go and common/ecchain.go
--   AdminBlock  common/adminBlock.go
--   DirectoryBlock  common/directoryBlock.go: DirectoryBlock/Chain has the chain and CreateDBlock,
--               DirectoryBlock/Info the info on the anchor
--   Consensus   consensus/plist.go and consensus/plistmgr.go
--   MemPool     process/mempool.go
--   Replay      process/replay.go
--   Process     process/processor.go: Process/Commit, Process/Reveal, Process/Buy and Process/Orphans
--               are the handlers, the other files of the folder say what they do
--   Build       the building of blocks of process/processor.go; in Build/Validate the validation of the
--               directory chain of process/init.go, and in Build/Credits the Entry Credit block that
--               the list fills, with the balances that process/init.go recounts from it;
--               Build/Open has the sealing of the other blocks, and the open blocks of a start;
--               Build/Items has buildFromProcessList with all kinds of items
--   Database    database/ldb: Database/Blocks has what is stored, Database/Fetch what is found, and
--               Database/Prefix the entry blocks of a chain; Database/Assoc is a store for the runs
--
-- A method keeps its name in antt's spelling: MarshalBinary is marshal, UnmarshalBinaryData is
-- unmarshal_data. The state of an object is a record with the fields of its struct; a method that
-- changes it returns the changed one. Numbers are natural numbers with the wrap-around of their Go
-- type written out; the int32 balances are integers cut to 32 bits. A Go panic is a result of its
-- own. Two loops run on fuel: reading the external IDs of an entry, with their size, of which every
-- round takes two bytes at least, and the logarithm of nextPowerOfTwo, with the number that it
-- halves. Entry/Fuel and Merkle/Power show that the fuel is enough.
--
-- Parameters stand for code that is not in the repository: SHA-256 and SHA-512, ed25519, the hash of a
-- message and the bytes of an acknowledgement in btcd's wire, the private key's signature, and the
-- key-value store of goleveldb, of which the laws of a read behind a write and of the iterator are
-- assumed.
--
-- Not modelled: JSON and hexadecimal text, I/O errors of the database and the lookups of its whole
-- tables, the network and the web service, the anchor, the wallet, the factoid blocks, the download of
-- blocks by a client, timers and the export of blocks to files.
pub mod AdminBlock
pub mod Buffer
pub mod Build
pub mod Chains
pub mod Common
pub mod Consensus
pub mod Credit
pub mod Database
pub mod DirectoryBlock
pub mod EBlock
pub mod EcBlock
pub mod Entry
pub mod Hash
pub mod MemPool
pub mod Merkle
pub mod Process
pub mod Replay
pub mod Slice
pub mod VarInt
