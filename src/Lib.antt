-- ===== src/Lib.antt =====
-- Lohpi: a network of nodes that store datasets, a policy store that decides who may read them,
-- and a directory server that knows where they are.
--
-- The policy store distributes a change of a policy to the nodes: it queues the policy, puts the
-- queued policies into one gossip message and sends it to some members
-- (core/policystore/multicast). How many members it addresses, and how often, is set by probing
-- sessions. A node (core/node) applies the policies of a message to the datasets that it has
-- indexed (core/datasetmanager, the indexer) and hands out the data of a dataset whose policy
-- grants access; it records who has checked out a dataset (the checkout service). The directory
-- server and the policy store know which node stores a dataset by the lookup service of
-- core/datasetmanager.
--
-- Files and code:
-- - Common and its modules: Boolean tests, lists, and `Outcome`, what a Go function that returns
--   an error may do: return a value, return an error, or panic.
-- - Proto: the message structs of protobuf/service.pb.go, a pointer as an Option, with their
--   nil-safe getters.
-- - Extern: PostgreSQL, Redis and protobuf as records of operations with the documented laws
--   that the code relies on; Extern.Memory fills them with association lists.
-- - Timestamp: `toTimestamppb` of core/datasetmanager/datasetindexerdb.go, on texts as lists of
--   characters; Timestamp.Print has the printer of decimal numbers, whose fuel for n is n + 1,
--   one more than the number of digits can be.
-- - LookupService: `DatasetLookupService`, core/datasetmanager/datasetlookupservice.go and
--   datasetlookupservicedb.go. The state is the cache, if there is one, and the table.
-- - Indexer: `DatasetIndexerUnit`, core/datasetmanager/datasetindexer.go and
--   datasetindexerdb.go, with the same kind of state.
-- - Checkout: `DatasetCheckoutServiceUnit`, core/datasetmanager/datasetcheckoutservice.go and
--   datasetcheckoutservicedb.go.
-- - Messages: the message struct, its signing and marshalling (core/policystore/messaging.go and
--   core/node/messaging.go), over the record `Channel` for protobuf, which decodes an empty map
--   as nil, and the signatures of Ifrit.
-- - Node.Messaging: the messages of core/node/messaging.go, and `messageHandler`,
--   `gossipHandler` and `acknowledgeProbe` of core/node/node.go.
-- - Node.Index: `IndexDataset` and the handshakes of core/node/node.go.
-- - Node.Batch: `processPolicyBatch` and `applyPolicy` of core/node/node.go, over the indexer.
-- - Node.Http: `getDataset`, `addDataset`, `removeDataset`, `getMetadata` and, in
--   Node.Http.PolicyChange, `setDatasetPolicy` of core/node/http.go, over the indexer and the
--   checkout service.
-- - PolicyStore.Git: `gitStorePolicy` and `gitGetDatasetPolicy` of core/policystore/git.go, over
--   the record `Files` for the file system and go-git.
-- - PolicyStore.SetPolicy: `setObjectPolicy` of core/policystore/http.go, over the indexer, the
--   lookup service and Git.
-- - PolicyStore.Request, PolicyStore.Deltas and PolicyStore.Core: the request of a node for a
--   policy, the comparison of datasets, the handlers of messages and gossip, the handshake and
--   the batcher of core/policystore/policy.go, and `getObjectPolicy` of http.go.
-- - Flow: the parts together: a node that indexes a dataset at a policy store, and a batch of
--   the policy store at a node.
-- - Directory: `messageHandler` of core/directoryserver/directoryservercore.go, with
--   `resolveDatasetIdentifiersDeltas` and `updateRevocationState`, over the lookup service.
-- - Directory.Http: `getDataset`, `getDatasetMetadata` and `getDatasetPolicyVerification` of
--   core/directoryserver/http.go, over the lookup service, the checkout service and the
--   streaming of the answer of a node.
-- - Directory.Descriptions: `setProjectDescription` and `getProjectDescription` of
--   core/directoryserver/http.go, over the table of core/directoryserver/database.go, whose rows
--   are nullable descriptions.
-- - Membership: `MembershipManagerUnit` of core/membershipmanager/membershipmanager.go and
--   database.go; Membership.Load reads the map from the table when the program starts.
-- - Streaming: `StreamToResponseWriter` of core/util/util.go; Streaming.Json: `DecodeJSONBody`
--   and the headers, over the outcomes of the decoder.
-- - StateSync: `SynchronizeDatasets` of core/statesync/syncer.go.
-- - Observer: core/gossipobserver/observer.go, over the queue and the log directory.
-- - Netutil: the loops of core/netutil/netutil.go, with fuel for the hundred and one attempts
--   that they make.
-- - Crypto: `CryptoUnit` of core/comm/crypto_unit.go, over X.509, PEM and a disk.
-- - Authority: `Ca` of cauth/ca.go, over the same parameters and RSA.
-- - Tokens: `validateTokenSignature` and the middleware of core/policystore/http.go, and the
--   middleware of core/node/http.go, over the keys and signatures of a library.
-- - Multicast.Members: core/policystore/multicast/membership.go, and `getMessageRecipients` of
--   manager.go.
-- - Multicast.Batch: `multicast` of core/policystore/multicast/manager.go. The channel of
--   policies is a list; `gossipChunk` holds pointers to the variable of the loop, as Go 1.15 has
--   one such variable for all rounds.
-- - Multicast.Probe: core/policystore/multicast/probe.go and round.go. A session is fed with the
--   events of its rounds, so that it ends, or it waits for the next event.
-- The modules called Tests have the examples.
--
-- A function that changes state takes it and returns it next to its outcome. A call of a service
-- fails depending on the state of the service only, and a call that fails has changed nothing;
-- where a statement needs services that answer, it says so. Versions and the 64-bit and 32-bit
-- counters are natural numbers below their bound, with the wrap-around written out where the
-- code computes with them. Identifiers that are spliced into the text of a query are taken to
-- have no quotes. Locks are not modelled: a call runs as one step.
--
-- Not modelled: the key vault, the gRPC servers and clients, Ifrit and its certificates, the
-- programs under cmd, and the code that creates schemas and reads configurations, which only
-- call libraries; core/node/database.go, which is commented out; and the handlers that write a
-- list of identifiers.
pub mod Common
pub mod Proto
pub mod Timestamp
pub mod Tokens
pub mod Multicast
pub mod Extern
pub mod Flow
pub mod LookupService
pub mod Indexer
pub mod Authority
pub mod Checkout
pub mod Netutil
pub mod Node
pub mod Observer
pub mod PolicyStore
pub mod Membership
pub mod Messages
pub mod StateSync
pub mod Streaming
pub mod Crypto
pub mod Directory
