-- ===== src/Docker/Args.antt =====
-- internal/dockerdrv/cli_driver.go: the argument lists of `docker run`, and the formats of its flags.
pub mod Order
use decloud.Base.{
  Str, codes, ◌++◌, List, [], ◌∷◌, map, if◌then◌else◌, str_eq, str_leb, contains_byte, itoa, sort,
}
use decloud.Errors.{Result, ok, err, sentinel, err_empty_service, err_invalid_service}
use decloud.Registry.Types.{Env}
use decloud.Docker.Types.{VolumeMount, PortMap, RunRequest, RunOptions}

-- formatVolume
unfoldable pub format_volume : VolumeMount → Str
format_volume v =
    let s = v.source ++ (b':' ∷ v.target) in if v.read_only then s ++ codes ":ro" else s

-- formatPortMap
unfoldable pub format_port_map : PortMap → Str
unfolding str_eq itoa
format_port_map p =
    let proto = if str_eq p.proto [] then codes "tcp" else p.proto in
    let published = itoa p.host_port ++ (b':' ∷ (itoa p.container_port ++ (b'/' ∷ proto))) in
    if str_eq p.host_bind [] then published else p.host_bind ++ (b':' ∷ published)

-- m[k], with Go's zero value for a key that is not there
unfoldable pub get_or_empty : Str → Env → Str
unfolding str_eq
get_or_empty k [] = []
get_or_empty k ((j, v) ∷ m) = if str_eq j k then v else get_or_empty k m

abbrev pub keys : Env → List Str
keys = map (λ (k, _). k)

-- `flag k=v` for each of the keys
unfoldable pub flag_each : Str → Env → List Str → List Str
unfolding get_or_empty
flag_each flag m [] = []
flag_each flag m (k ∷ ks) = flag ∷ (k ++ (b'=' ∷ get_or_empty k m)) ∷ flag_each flag m ks

-- The flags of a map, by sorted keys.
unfoldable pub sorted_flags : Str → Env → List Str
unfolding flag_each sort str_leb
sorted_flags flag m = flag_each flag m (sort str_leb (keys m))

unfoldable pub volume_flags : List VolumeMount → List Str
unfolding format_volume
volume_flags [] = []
volume_flags (v ∷ vs) = codes "-v" ∷ format_volume v ∷ volume_flags vs

unfoldable pub port_flags : List PortMap → List Str
unfolding format_port_map
port_flags [] = []
port_flags (p ∷ ps) = codes "-p" ∷ format_port_map p ∷ port_flags ps

-- The part of the arguments that Run and RunWithOptions share.
run_head : Str → Str → Str → Str → List Str
run_head name network restart service =
    codes "run"
    ∷ codes "-d"
    ∷ codes "--name"
    ∷ name
    ∷ codes "--network"
    ∷ network
    ∷ codes "--restart"
    ∷ restart
    ∷ codes "--log-driver"
    ∷ codes "journald"
    ∷ codes "--log-opt"
    ∷ (codes "tag=decloud/" ++ service)
    ∷ []

-- The tests on Service, first of all in Run and RunWithOptions.
unfoldable pub check_service : Str → List Str → Result (List Str)
unfolding str_eq contains_byte
check_service service args =
    if str_eq service []
    then err (sentinel err_empty_service)
    else if contains_byte b'/' service
    then err (sentinel err_invalid_service)
    else ok args

-- The arguments with which Run calls docker, or its early error.
unfoldable pub run_args : RunRequest → Result (List Str)
unfolding check_service run_head sorted_flags volume_flags
run_args req = check_service req.service (
    run_head req.name req.network req.restart req.service
    ++ (sorted_flags (codes "--env") req.env
        ++ (volume_flags req.volumes
            ++ (codes "--label" ∷ (codes "decloud.service=" ++ req.service) ∷ req.image ∷ []))))

-- The same for RunWithOptions.
unfoldable pub run_with_options_args : RunOptions → Result (List Str)
unfolding check_service run_head sorted_flags volume_flags port_flags
run_with_options_args opts = check_service opts.service (
    run_head opts.name opts.network opts.restart opts.service
    ++ (sorted_flags (codes "--env") opts.env
        ++ (sorted_flags (codes "--label") opts.labels
            ++ (port_flags opts.ports ++ (volume_flags opts.volumes ++ opts.image ∷ [])))))
