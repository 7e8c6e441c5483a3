-- ===== src/Ids.antt =====
-- internal/ids/ids.go: deploy ids, and the names of containers and images. The random bytes are a
-- parameter.
pub mod Format
use decloud.Base.{ℕ, ◌+◌, ◌-◌, ◌/◌, ◌%◌, Str, codes, ◌++◌, List, [], ◌∷◌, if◌then◌else◌, ltb}
use decloud.Registry.Types.{Time}
use decloud.Clock.{compact_date, compact_time}

unfoldable pub container_name : Str → Str
container_name service_name = codes "decloud-" ++ service_name

unfoldable pub image_ref : Str → Str → Str
image_ref service_name deploy_id = codes "decloud-" ++ (service_name ++ b':' ∷ deploy_id)

abbrev pub hex_digit : ℕ → ℕ
hex_digit n = if ltb n 10 then b'0' + n else b'a' + (n - 10)

-- hex.EncodeToString
unfoldable pub hex : List ℕ → Str
hex [] = []
hex (b ∷ bs) = hex_digit (b / 16) ∷ hex_digit (b % 16) ∷ hex bs

-- NewDeployID, given time.Now().UTC() and the three bytes of rand.Read.
unfoldable pub new_deploy_id : Time → List ℕ → Str
unfolding compact_date compact_time hex
new_deploy_id now random = compact_date now ++ (b'-' ∷ (compact_time now ++ (b'-' ∷ hex random)))
