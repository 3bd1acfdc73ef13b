-- ===== src/Config/Fields.antt =====
-- src/config.c, `parse_check` and `apply_field`: one `key: value` pair.
use hacman.Config.State.{unknown_key, Result, ok, err, check, Cfg}
use hacman.Project.{Project, etag, hash, version, name_max, url_max, command_max, path_max}
use hacman.Schedule.{parse_schedule}
use hacman.Util.Text.{str_eq}
use hacman.Base.{ℕ, true, false, Option, none, some, ltb, if◌then◌else◌, length, Bytes, codes}

unfoldable pub parse_check : Project → Bytes → Option Project
parse_check p v =
    if str_eq v (codes "etag")
    then some (record p { check = etag })
    else if str_eq v (codes "hash")
    then some (record p { check = hash })
    else if str_eq v (codes "version")
    then some (record p { check = version })
    else none

-- The branch of `schedule`.
unfoldable pub apply_schedule : Cfg → ℕ → Option Project → Result Cfg
apply_schedule c line none =
    check true line "schedule must be always, never, hourly, daily, weekly, monthly or <n>[smhdw]"
      (ok c)
apply_schedule c line (some p) = ok (record c { out = record p { schedule_explicit = true } })

-- The branch of `check`.
unfoldable pub apply_check : Cfg → ℕ → Option Project → Result Cfg
apply_check c line none = check true line "check must be one of: etag, hash, version" (ok c)
apply_check c line (some p) = ok (record c { out = p; seen_check = true })

-- The branch of `bin-path`.
unfoldable pub apply_bin_path : Cfg → Bytes → ℕ → Result Cfg
apply_bin_path c value line = check c.seen_bin line "duplicate 'bin-path'" (
    check (ltb path_max (length value)) line "bin-path is too long"
      (ok (record c { seen_bin = true; out = record c.out { bin = value } })))

-- The branch of `sandboxed`.
unfoldable pub apply_sandboxed : Cfg → Bytes → ℕ → Result Cfg
apply_sandboxed c value line =
    if str_eq value (codes "true")
    then ok (record c { out = record c.out { sandboxed = true } })
    else check (if str_eq value (codes "false") then false else true) line
        "sandboxed must be true or false"
        (ok (record c { out = record c.out { sandboxed = false } }))

-- The end of `apply_field`'s chain of keys.
unfoldable pub apply_setting : Cfg → Bytes → Bytes → ℕ → Result Cfg
apply_setting c key value line =
    if str_eq key (codes "schedule")
    then apply_schedule c line (parse_schedule c.out value)
    else if str_eq key (codes "sandboxed")
    then apply_sandboxed c value line
    else if str_eq key (codes "version-prefix")
    then ok (record c { seen_version = true; out = record c.out { version_prefix = value } })
    else if str_eq key (codes "version-suffix")
    then ok (record c { seen_version = true; out = record c.out { version_suffix = value } })
    else if str_eq key (codes "install")
    then ok (record c {
      seen_install = true;
      out = record c.out { install = value; install_indent = 0 };
    })
    else err line (unknown_key key)

-- The middle of the chain.
unfoldable pub apply_program : Cfg → Bytes → Bytes → ℕ → Result Cfg
apply_program c key value line =
    if str_eq key (codes "bin-path")
    then apply_bin_path c value line
    else if str_eq key (codes "check")
    then apply_check c line (parse_check c.out value)
    else apply_setting c key value line

unfoldable pub apply_field : Cfg → Bytes → Bytes → ℕ → Result Cfg
apply_field c key value line =
    if str_eq key (codes "name")
    then check (ltb name_max (length value)) line "name is too long"
        (ok (record c { out = record c.out { name = value } }))
    else if str_eq key (codes "url")
    then check (ltb url_max (length value)) line "url is too long"
        (ok (record c { out = record c.out { url = value } }))
    else if str_eq key (codes "command")
    then check (ltb command_max (length value)) line "command is too long"
        (ok (record c { out = record c.out { command = value } }))
    else apply_program c key value line
