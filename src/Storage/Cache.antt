-- ===== src/Storage/Cache.antt =====
-- Reading from a Redis cache: roomCache.go and UserClientCache.go of internal/chat/storage.
use krampus.Prelude.{String, Option, none, some}
use krampus.Prelude.Dict.{Dict, lookup}
use krampus.Storage.Fault.{Fault}

-- `GetRoom` and `GetUserClient` of the caches: a missing key is no error, and both a missing key and
-- an error lead past the cache.
unfoldable pub cached : {V : Type 0} → Fault → String → Dict V → Option V
cached none id cache = lookup id cache
cached (some e) id cache = none
