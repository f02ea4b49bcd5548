-- ===== src/Flow/Distribution.antt =====
-- A batch of the policy store at a node: `multicast` of core/policystore/multicast/manager.go, and
-- `processPolicyBatch` of core/node/node.go on the message that it sends.
mod Tests
use lohpi.Common.{panic, String, ◌≡◌, ◌≢◌, false, Option, some, List, map, str_eq}
use lohpi.Indexer.{Services}
use lohpi.Indexer.Uncached.{uncached}
use lohpi.Node.Batch.{process_policy_batch}
use lohpi.Extern.{map_some}
use lohpi.Proto.{Policy}
use lohpi.Multicast.Batch.{GossipMessage}
use lohpi.Node.Batch.Held.{Held, newer, held_at, AllReadable}

-- the bodies of a gossip message as a node decodes them
abbrev pub gossip_of : GossipMessage → Option (List (Option Policy))
gossip_of msg = some (map some msg.bodies)

module _ (ext : Services) where
  open ext use {table}

  -- what a gossip message does to every node without a cache whose table answers and whose dates
  -- are readable: no panic, and one policy where it is newer than the one that is held
  abbrev pub Delivers : Policy → Option (List (Option Policy)) → Type 0
  Delivers p gossip =
      (db : table.Db) (k : String)
      → AllReadable ext db
      → str_eq k "" ≡ false
      → let result = process_policy_batch ext gossip (uncached ext db) in
        (result.1 ≢ panic)
        × (held_at ext result.0.db k ≡ map_some (newer k (some p)) (held_at ext db k))
