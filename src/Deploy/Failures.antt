-- ===== src/Deploy/Failures.antt =====
-- internal/deploy/service.go: the errors of a deployment.
use decloud.Base.{Str, String, if◌then◌else◌}
use decloud.Errors.{
  Error, sentinel, errorf, end, lit, str, quoted, wrap, error_is, is_cancellation, wrap_both,
  err_run, err_readiness, err_caddy_reload, err_interrupted,
}

-- The error of a step, unless it was cancelled.
abbrev pub or_interrupted : Error → Error → Error
or_interrupted e other = if is_cancellation e then wrap_both err_interrupted e else other

abbrev pub orphan_error : Str → Error → Error
orphan_error container e = errorf (
    wrap (sentinel err_run) (
      lit ": cleaning up orphan container " (
        str container
          (lit "; please run 'docker rm -f " (str container (lit "' and retry: " (wrap e end)))))))

abbrev pub foreign_error : Str → Str → Str → Error
foreign_error container label name = errorf (
    wrap (sentinel err_run) (
      lit ": container " (
        str container (
          lit " exists but was not created by decloud (label decloud.service=" (
            quoted label (
              lit " does not match " (
                quoted name (
                  lit "); refusing to remove. Run 'docker rm -f " (
                    str container (
                      lit
                        "' manually if you want to claim this name, or pick a different service name"
                        end))))))))))

abbrev pub inspect_error : Str → Error → Error
inspect_error container e = or_interrupted e (
    errorf (
      wrap (sentinel err_run)
        (lit ": inspect orphan check " (str container (lit ": " (wrap e end))))))

abbrev pub readiness_error : Error → Error
readiness_error e =
    or_interrupted e (if error_is e err_readiness then e else wrap_both err_readiness e)

abbrev pub no_route : String → Error → Error
no_route step e = errorf (
    wrap (sentinel err_caddy_reload) (
      lit ": caddy " (
        lit step (
          lit " failed: " (
            wrap e (
              lit
                "; service is registered and running but Caddy is not routing traffic; run 'decloud caddy up' (and then 'decloud caddy reload' if needed) to restore routing"
                end))))))
