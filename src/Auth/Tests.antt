-- ===== src/Auth/Tests.antt =====
-- Tests of the authentication strings.
use t_sync_sdk_go.Base.{List, [], ◌∷◌}
use t_sync_sdk_go.Base.Bytes.{Bytes, codes}
use t_sync_sdk_go.Base.Dict
use t_sync_sdk_go.Base.Dict.{Dict}

abbrev allowed : List Bytes
allowed = codes "region" ∷ codes "endpoint" ∷ []

abbrev options : Dict Bytes Bytes
options = (codes "region", codes "eu") ∷ []
