-- ===== src/PolicyStore/Request/Registered.antt =====
-- Who is registered for a dataset once the policy store has answered a request for its policy.
use lohpi.Indexer
use lohpi.LookupService
use lohpi.LookupService.Refinement
