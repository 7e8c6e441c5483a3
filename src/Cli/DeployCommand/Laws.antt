-- ===== src/Cli/DeployCommand/Laws.antt =====
-- internal/cli/deploy_service.go: what a request made from flags is, and the exit codes of flags
-- that are refused.
use decloud.Base.{
  ◌≡◌, ◌≢◌, refl, ◌⊎◌, inl, inr, ℕ, is_zero, Str, codes, true, false, Bool-cases, Option-cases,
  some, List, [], ◌∷◌, All, arith, str_eq, str_eq_iff, has_prefix, ◌++◌,
}
use decloud.Base.Path.{is_abs, clean, path_join}
use decloud.Errors.{Error, Result, Result-cases, ok, err}
use decloud.Registry.Types.{Mount}
use decloud.Registry.Mount.{parse_mount_string, find_duplicate_target, target_at}
use decloud.Registry.Mount.Laws.{
  IsWellFormed, Distinct, validate_mount_iff, find_duplicate_target-none,
}
use decloud.Deploy.Mounts.{parse_mount_string_sound}
use decloud.Os.{Files}
use decloud.Deploy.Requests.{Request}
use decloud.Cli.ExitCodes.{exit_code_for, exit_usage_error, exit_config_error}
use decloud.Cli.DeployCommand.{
  Flags, parse_each, parse_mount_flags, check_flags, port_required, strategy_error, mount_error,
  duplicate_error, absolute, resolve_env_file, request_of, request_from, dockerfile_of,
}

parse_each-IsWellFormed :
    (raws : List Str) (ms : List Mount) → parse_each raws ≡ ok ms → All IsWellFormed ms
unfolding parse_each
parse_each-IsWellFormed [] ms h = let e : [] ≡ ms = ground arith in rw (← e) tt
parse_each-IsWellFormed (raw ∷ raws) ms h = elim (Result-cases (parse_mount_string raw)) [
  | inr (x, p) ↦ absurd (ground arith)
  | inl (m, p) ↦ elim (Result-cases (parse_each raws)) [
    | inr (x, q) ↦ absurd (ground arith)
    | inl (rest, q) ↦
        let e : m ∷ rest ≡ ms = ground arith in
        rw (← e) (
          (validate_mount_iff m).0 (parse_mount_string_sound raw m p).1,
          parse_each-IsWellFormed raws rest q,
        )
  ]
]

parse_mount_flags-ok :
    (raws : List Str) (ms : List Mount)
    → parse_mount_flags raws ≡ ok ms
    → All IsWellFormed ms × Distinct ms
unfolding parse_mount_flags
parse_mount_flags-ok raws ms h = elim (Result-cases (parse_each raws)) [
  | inr (x, p) ↦ absurd (ground arith)
  | inl (parsed, p) ↦ elim (Option-cases (find_duplicate_target parsed)) [
    | inr (dup, q) ↦ absurd (ground arith)
    | inl q ↦
        let e : parsed ≡ ms = ground arith in
        rw (← e) (parse_each-IsWellFormed raws parsed p, (find_duplicate_target-none parsed).0 q)
  ]
]

parse_each-refused :
    (raws : List Str) (e : Error)
    → parse_each raws ≡ err e
    → (raw : Str) × (x : Error) × (e ≡ mount_error raw x)
unfolding parse_each
parse_each-refused [] e h = absurd (ground arith)
parse_each-refused (raw ∷ raws) e h = elim (Result-cases (parse_mount_string raw)) [
  | inr (x, p) ↦ (raw, x, ground arith)
  | inl (m, p) ↦ elim (Result-cases (parse_each raws)) [
    | inl (rest, q) ↦ absurd (ground arith)
    | inr (x, q) ↦ parse_each-refused raws e (ground arith)
  ]
]

check_flags-cases :
    (f : Flags)
    → ((e : Error) × (parse_each f.mounts ≡ err e) × (check_flags f ≡ err e))
      ⊎ (((target : Str) × (n : ℕ) × (check_flags f ≡ err (duplicate_error target n)))
          ⊎ ((check_flags f ≡ err (strategy_error f.strategy))
              ⊎ ((check_flags f ≡ err port_required)
                  ⊎ ((ms : List Mount) × (parse_mount_flags f.mounts ≡ ok ms)
                      × (check_flags f ≡ ok ms)
                      × (f.strategy ≡ codes "recreate")
                      × (is_zero f.port ≡ false)))))
unfolding check_flags parse_mount_flags
check_flags-cases f = elim (Result-cases (parse_each f.mounts)) [
  | inr (x, p) ↦ inl (x, p, ground arith)
  | inl (ms, p) ↦ elim (Option-cases (find_duplicate_target ms)) [
    | inr ((first, dup), q) ↦ inr (inl (target_at ms dup, first, ground arith))
    | inl q ↦ elim (Bool-cases (str_eq f.strategy (codes "recreate"))) [
      | inr r ↦ inr (inr (inl (ground arith)))
      | inl r ↦ elim (Bool-cases (is_zero f.port)) [
        | inl z ↦ inr (inr (inr (inl (ground arith))))
        | inr z ↦ inr (
            inr (
              inr (
                inr (
                  ms,
                  ground arith,
                  ground arith,
                  (str_eq_iff f.strategy (codes "recreate")).0 r,
                  z,
                ))))
      ]
    ]
  ]
]

-- This error is returned, and it has this exit code.
abbrev pub FailsWith : ℕ → Result (List Mount) → Type 0
FailsWith code r = (e : Error) × (r ≡ err e) × (exit_code_for (some e) ≡ code)

parse_mount_flags-usage :
    (raws : List Str) (e : Error)
    → parse_mount_flags raws ≡ err e
    → exit_code_for (some e) ≡ exit_usage_error
unfolding parse_mount_flags
parse_mount_flags-usage raws e h = elim (Result-cases (parse_each raws)) [
  | inr (x, p) ↦
      let (raw, y, same) = parse_each-refused raws x p in
      let e1 : mount_error raw y ≡ e = ground arith in rw (← e1) (unfold exit_code_for in refl)
  | inl (ms, p) ↦ elim (Option-cases (find_duplicate_target ms)) [
    | inr ((first, dup), q) ↦
        let e1 : duplicate_error (target_at ms dup) first ≡ e = ground arith in
        rw (← e1) (unfold exit_code_for in refl)
    | inl q ↦ absurd (ground arith)
  ]
]

-- The mounts are refused; or the strategy; or the port; or the flags are accepted.
pub check_flags-verdict :
    (f : Flags)
    → (((e : Error) × (parse_mount_flags f.mounts ≡ err e))
        × FailsWith exit_usage_error (check_flags f))
      ⊎ ((ms : List Mount) × (parse_mount_flags f.mounts ≡ ok ms)
          × (((f.strategy ≢ codes "recreate") × FailsWith exit_config_error (check_flags f))
              ⊎ ((f.strategy ≡ codes "recreate")
                  × (((is_zero f.port ≡ true) × FailsWith exit_usage_error (check_flags f))
                      ⊎ ((is_zero f.port ≡ false) × (check_flags f ≡ ok ms))))))
unfolding check_flags
check_flags-verdict f = elim (Result-cases (parse_mount_flags f.mounts)) [
  | inr (e, p) ↦ inl ((e, p), (e, ground arith, parse_mount_flags-usage f.mounts e p))
  | inl (ms, p) ↦ elim (Bool-cases (str_eq f.strategy (codes "recreate"))) [
    | inr r ↦
        let other : f.strategy ≢ codes "recreate" =
          λ e. ground (arith, e, r, str_eq_iff f.strategy (codes "recreate")) in
        inr (
          ms,
          p,
          inl (other, (strategy_error f.strategy, ground arith, unfold exit_code_for in refl)),
        )
    | inl r ↦
        let recreate = (str_eq_iff f.strategy (codes "recreate")).0 r in
        elim (Bool-cases (is_zero f.port)) [
          | inl z ↦ inr (
            ms,
            p,
            inr (
              recreate,
              inl (z, (port_required, ground arith, unfold exit_code_for port_required in refl)),
            ),
          )
          | inr z ↦ inr (ms, p, inr (recreate, inr (z, ground arith)))
        ]
  ]
]

clean-abs : (p : Str) → is_abs p ≡ true → is_abs (clean p) ≡ true
unfolding is_abs clean has_prefix
clean-abs p h = ground arith

append-abs : (p q : Str) → is_abs p ≡ true → is_abs (p ++ q) ≡ true
unfolding is_abs has_prefix
append-abs [] q h = ground arith
append-abs (a ∷ p) q h = ground arith

path_join-abs : (a b : Str) → is_abs a ≡ true → is_abs (path_join a b) ≡ true
unfolding path_join
path_join-abs [] b h = absurd (unfold is_abs has_prefix in ground arith)
path_join-abs (c ∷ a) b h =
    ground (arith, clean-abs ((c ∷ a) ++ (b'/' ∷ b)) (append-abs (c ∷ a) (b'/' ∷ b) h))

-- What Deploy relies on in a request.
abbrev pub IsRequest : Flags → Request → Type 0
IsRequest f req =
    All IsWellFormed req.mounts
    × Distinct req.mounts
    × (req.strategy ≡ codes "recreate")
    × (is_zero req.port ≡ false)
    × (is_abs req.source_dir ≡ true)
    × (is_abs req.dockerfile ≡ true)
    × (req.name ≡ f.name)

module _ {W : Type 0} (fs : Files W)
    (cwd : (dir : Str) (w : W) → (fs.getwd w).0 ≡ ok dir → is_abs dir ≡ true) where
  absolute-abs :
      (path : Str) (w : W) (abs : Str) → (absolute fs path w).0 ≡ ok abs → is_abs abs ≡ true
  unfolding absolute
  absolute-abs path w abs h = elim (Bool-cases (is_abs path)) [
    | inl a ↦ let e : clean path ≡ abs = ground arith in rw (← e) (clean-abs path a)
    | inr a ↦ elim (Result-cases (fs.getwd w).0) [
      | inr (x, p) ↦ absurd (ground arith)
      | inl (dir, p) ↦
          let e : path_join dir path ≡ abs = ground arith in
          rw (← e) (path_join-abs dir path (cwd dir w p))
    ]
  ]

  dockerfile_of-abs :
      (flag abs : Str) → is_abs abs ≡ true → is_abs (dockerfile_of fs flag abs) ≡ true
  dockerfile_of-abs flag abs h =
      ground (arith, path_join-abs abs flag h, path_join-abs abs (codes "Dockerfile") h)

  -- If the working directory is an absolute path, a request that runDeployService makes from its flags has
  -- well-formed mounts with distinct container paths, the strategy "recreate", a port other than 0, an
  -- absolute source directory and Dockerfile, and the name that was given.
  pub request_from-IsRequest :
      (f : Flags) (source : Str) (w : W) (req : Request)
      → (request_from fs f source w).0 ≡ ok req
      → IsRequest f req
  unfolding request_from
  request_from-IsRequest f source w req h =
      let made = absolute fs source w in
      elim (Result-cases made.0) [
        | inr (x, p) ↦ absurd (ground arith)
        | inl (abs, p) ↦
            let env = resolve_env_file fs f.env_file abs made.1 in
            elim (Result-cases env.0) [
              | inr (x, q) ↦ absurd (ground arith)
              | inl (env_file, q) ↦ elim (check_flags-cases f) [
                | inr (inr (inr (inr (ms, parsed, c, s, z)))) ↦
                    let same : request_of fs f ms abs env_file ≡ req = ground arith in
                    let mounts = parse_mount_flags-ok f.mounts ms parsed in
                    rw (← same) (
                      mounts.0,
                      mounts.1,
                      s,
                      z,
                      absolute-abs source w abs p,
                      dockerfile_of-abs f.dockerfile abs (absolute-abs source w abs p),
                      refl,
                    )
                | inl (x, y, c) ↦ absurd (ground arith)
                | inr (inl (x, y, c)) ↦ absurd (ground arith)
                | inr (inr (inl c)) ↦ absurd (ground arith)
                | inr (inr (inr (inl c))) ↦ absurd (ground arith)
              ]
            ]
      ]
