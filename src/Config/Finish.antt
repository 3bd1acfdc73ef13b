-- ===== src/Config/Finish.antt =====
-- src/config.c, `begin_project` and `finish_project`: the defaults of a project, and the rules that
-- relate its fields, applied at the end of its mapping.
use hacman.Config.Path.{valid_relative_path}
use hacman.Config.State.{null_read, Result, ok, err, check, ◌>>=◌, Environment, Cfg}
use hacman.Config.Template.{expand_template}
use hacman.Project.{
  SandboxWriteDir, url_kind, command_kind, CheckKind, etag, version, every, name_max, path_max,
  zeroed,
}
use hacman.Util.Text.{c_str}
use hacman.Base.{
  ℕ, ◌+◌, Bool, true, false, not, ◌&&◌, ◌||◌, List, [], ◌∷◌, ltb, ◌==◌, if◌then◌else◌, length, take,
  get_or, Bytes, pos,
}

unfoldable pub begin_project : Cfg → ℕ → Result Cfg
begin_project c at = check c.started at "input must describe exactly one project" (
    ok (record c {
      started = true;
      inside = true;
      out = record zeroed {
        check = etag;
        sched_kind = every;
        sandboxed = true;
        sched_interval = pos 86400;
        line = at;
      };
    }))

abbrev pub is_version : CheckKind → Bool
is_version version = true
is_version _ = false

-- `p->name.len == 0 ? default_name(from) : p->name`
unfoldable pub name_or : Bytes → Bytes → Bytes
name_or name from = if length name == 0 then take name_max from else name

-- The rules for a project with a command, and for one with a URL.
unfoldable pub finish_kind : Cfg → Result Cfg
finish_kind c =
    let p = c.out in
    check (length p.url == 0 && length p.command == 0) p.line
      "project needs either 'url' or 'command'"
      (check (ltb 0 (length p.url) && ltb 0 (length p.command)) p.line
        "'url' and 'command' are mutually exclusive"
        (if ltb 0 (length p.command)
          then check (c.seen_check || c.seen_version) p.line
              "'check' and 'version-*' only apply to a 'url'"
              (check c.seen_install p.line
                "a 'command' project has no 'install': the command is the work"
                (ok (record c {
                  out = record p { kind = command_kind; name = name_or p.name p.command };
                })))
          else check c.seen_files p.line "'files' only applies to a 'command'" (
              check (is_version p.check && length p.version_prefix == 0) p.line
                "check: version requires 'version-prefix'"
                (ok
                  (record c { out = record p { kind = url_kind; name = name_or p.name p.url } })))))

-- The loop over the writable directories. Arrays of bytes are the C strings in them.
unfoldable pub expand_dirs : Environment → List SandboxWriteDir → Result (List SandboxWriteDir)
expand_dirs env [] = ok []
expand_dirs env (d ∷ ds) =
    expand_template env d.source "sandbox-write-dirs entry" (path_max + 1) d.line true >>= λ t.
    expand_dirs env ds >>= λ es. ok (record d { path = c_str t } ∷ es)

unfoldable pub finish_dirs : Environment → Cfg → Result Cfg
finish_dirs env c =
    let p = c.out in
    check c.pending_bin_map p.line "'bin-path' needs a path or a mapping of names to paths" (
      check (ltb 0 (length p.sandbox_write_dirs) && not p.sandboxed) p.line
        "'sandbox-write-dirs' requires 'sandboxed: true'"
        (if c.resolve_paths
          then (expand_dirs env p.sandbox_write_dirs >>= λ ds.
              ok (record c { out = record p { sandbox_write_dirs = ds } }))
          else ok c))

unfoldable pub expand_bin : Environment → Cfg → Result Cfg
expand_bin env c =
    let p = c.out in
    if c.resolve_paths && ltb 0 (length p.bin)
    then (expand_template env p.bin "bin-path" (path_max + 1) p.line
          (length p.files == 0 && not p.sandboxed)
        >>= λ t. ok (record c { out = record p { bin_path = c_str t } }))
    else ok c

unfoldable pub finish_bin : Cfg → Result Cfg
finish_bin c =
    let p = c.out in
    if ltb 0 (length p.bin_path) && not (get_or p.bin_path 0 0 == b'/')
    then check (not (valid_relative_path p.bin_path path_max)) p.line
        "cache-relative bin-path must be a safe relative path"
        (ok (record c { finished = true; inside = false; out = record p { bin_cached = true } }))
    else ok (record c { finished = true; inside = false })

-- Without a current project C reads through a null pointer.
unfoldable pub finish_project : Environment → Cfg → Result Cfg
finish_project env c =
    if c.inside
    then (finish_kind c >>= λ k. finish_dirs env k >>= λ d. expand_bin env d >>= finish_bin)
    else err 0 null_read
