-- ===== src/Cli/StatusCommand.antt =====
-- internal/cli/status.go: what `decloud status` prints. The layout of text/tabwriter is a parameter,
-- which is given the cells.
use decloud.Base.{Str, codes, List, [], ◌∷◌, ◌++◌, if◌then◌else◌, str_eq, ◌==◌}
use decloud.Errors.{wrap_text}
use decloud.Exec.{M, pure, or_fail, ◌>>=◌, ◌>>◌}
use decloud.Registry.Types.{Time}
use decloud.Clock.{rfc3339}
use decloud.Deploy.Interface.{Done}
use decloud.Deploy.Lifecycle.{Status}

-- The writers of a command: a line to stdout, the cells of a table to a tabwriter on stdout, and a
-- line to stderr.
pub record Console (W : Type 0) : Type 0 where
  pub print : Str → W → Done × W
  pub flush : List (List Str) → M W Done
  pub warn : Str → W → Done × W

unfoldable pub dash_if_empty : Str → Str
unfolding str_eq
dash_if_empty s = if str_eq s [] then codes "-" else s

unfoldable pub rfc3339_or_dash : Time → Str
unfolding rfc3339
rfc3339_or_dash t = if t == 0 then codes "-" else rfc3339 t

unfoldable pub status_line : Status → Str
unfolding rfc3339
status_line st =
    st.name
    ++ (codes " state="
        ++ (st.state
            ++ (codes " container="
                ++ (st.container_name
                    ++ (codes " deploy="
                        ++ (st.last_deploy_id
                            ++ (codes " deployed_at=" ++ rfc3339 st.last_deployed_at)))))))

unfoldable pub cells : Status → List Str
unfolding dash_if_empty rfc3339_or_dash
cells st =
    st.name
    ∷ st.state
    ∷ dash_if_empty st.container_name
    ∷ dash_if_empty st.last_deploy_id
    ∷ rfc3339_or_dash st.last_deployed_at
    ∷ []

unfoldable pub table_rows : List Status → List (List Str)
unfolding cells
table_rows [] = []
table_rows (st ∷ rows) = cells st ∷ table_rows rows

abbrev header : List Str
header =
    codes "NAME" ∷ codes "STATE" ∷ codes "CONTAINER" ∷ codes "DEPLOY" ∷ codes "DEPLOYED_AT" ∷ []

-- The lines for stderr, of the rows with an error.
unfoldable pub error_lines : List Status → List Str
unfolding str_eq
error_lines [] = []
error_lines (st ∷ rows) =
    let rest = error_lines rows in
    if str_eq st.error_detail []
    then rest
    else (codes "status: " ++ (st.name ++ (codes ": " ++ st.error_detail))) ∷ rest

module _ {W : Type 0} (console : Console W) where
  abbrev printed : Done × W → W
  printed (_, w) = w

  unfoldable pub warn_each : List Str → W → W
  warn_each [] w = w
  warn_each (l ∷ ls) w = warn_each ls (printed (console.warn l w))

  abbrev warned : List Str → M W Done
  warned ls w = pure tt (warn_each ls w)

  unfoldable pub run_status_one : M W Status → M W Done
  run_status_one status = do st ← status; λ w. pure tt (printed (console.print (status_line st) w))

  unfoldable pub run_status_all : M W (List Status) → M W Done
  run_status_all status_all = do
    statuses ← status_all
    or_fail (wrap_text "flushing status table") (console.flush (header ∷ table_rows statuses))
    warned (error_lines statuses)
