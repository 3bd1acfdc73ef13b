-- ===== src/Plan.antt =====
-- src/plan.c: what `hacman --plan` prints, one line of the list for each call of `hm_out`. `shell`
-- is HM_SHELL, a setting of the build.
pub mod Install
use hacman.Cache.Record.{Cache}
use hacman.Config.Lines.{file_lines, lines_from}
use hacman.Main.Due.{is_never}
use hacman.Project.{
  Project, EmbeddedFile, SandboxWriteDir, CheckKind, etag, hash, version, SchedKind, always, every,
  never, ProjectKind, url_kind, command_kind, BinChoice, single, named, default,
}
use hacman.Schedule.{sched_describe}
use hacman.Util.Format.{Arg, str, text, unsigned, vformat, line_cap}
use hacman.Util.Number.{ulong_mod}
use hacman.Base.{
  ℕ, suc, ◌-◌, String, Bool, true, false, not, ◌||◌, some, List, [], ◌∷◌, ◌++◌, map, ltb, ◌==◌,
  if◌then◌else◌, length, Bytes, codes, ℤ, pos, negsuc,
}

-- `hm_out(fmt, ...)`
unfoldable pub out : String → List Arg → Bytes
out fmt args = vformat line_cap (codes fmt) args

-- A C string as an argument.
abbrev pub c : Bytes → Arg
c s = str (some s)

-- `hm_check_name`
abbrev pub check_name : CheckKind → Bytes
check_name etag = codes "etag"
check_name hash = codes "hash"
check_name version = codes "version"

-- `(unsigned long)v`
abbrev pub to_unsigned : ℤ → ℕ
to_unsigned (pos n) = n
to_unsigned (negsuc n) = ulong_mod - suc n

unfoldable pub response_env : CheckKind → List Bytes
response_env etag = []
response_env _ = out ",HACMAN_RESPONSE" [] ∷ []

unfoldable pub print_env : Project → List Bytes
print_env p =
    out "install-env: [HACMAN_NAME,HACMAN_URL,HACMAN_CHECK,HACMAN_VERSION,HACMAN_PREVIOUS" []
    ∷ (response_env p.check ++ out "]\n" [] ∷ [])

unfoldable pub print_suffix : Bytes → List Bytes
print_suffix [] = []
print_suffix (x ∷ s) = out "version-suffix: %S\n" (text (x ∷ s) ∷ []) ∷ []

unfoldable pub compare_version : Bytes → Bytes
compare_version [] = out "compare: the text from version-prefix to the end of that line\n" []
compare_version _ = out "compare: the text between version-prefix and version-suffix\n" []

-- The switch of `print_check`.
unfoldable pub print_request : CheckKind → Project → List Bytes
print_request etag p =
    out "request: HEAD %S\n" (text p.url ∷ [])
    ∷ out "compare: the ETag header, or Last-Modified when absent\n" []
    ∷ []
print_request hash p =
    out "request: GET %S\n" (text p.url ∷ [])
    ∷ out "compare: an XXH3 hash of the whole response body\n" []
    ∷ []
print_request version p =
    out "version-prefix: %S\n" (text p.version_prefix ∷ [])
    ∷ (print_suffix p.version_suffix
        ++ (out "request: GET %S\n" (text p.url ∷ []) ∷ compare_version p.version_suffix ∷ []))

unfoldable pub print_check : Project → List Bytes
print_check p = out "check: %s\n" (c (check_name p.check) ∷ []) ∷ print_request p.check p

-- A line of a block, behind the spaces in `fmt`; an empty one has none.
unfoldable pub block_line : String → Bytes → Bytes
block_line fmt [] = out "\n" []
block_line fmt (x ∷ s) = out fmt (text (x ∷ s) ∷ [])

unfoldable pub install_heading : Bytes → Project → List Bytes
install_heading shell p =
    out "install-shell: %s -e <script>\n" (c shell ∷ [])
    ∷ (print_env p ++ (out "install: |\n" [] ∷ []))

unfoldable pub print_install : Bytes → Project → List Bytes
print_install shell p =
    if length p.install == 0
    then out "install: (none - a change would only be reported)\n" [] ∷ []
    else install_heading shell p
      ++ map (block_line "  %S\n") (lines_from (length p.install) p.install_indent p.install)

unfoldable pub print_file : EmbeddedFile → List Bytes
print_file f = out "  %S: |\n" (text f.path ∷ []) ∷ map (block_line "    %S\n") (file_lines f)

unfoldable pub each {ℓ} : {A : Type ℓ} → (A → List Bytes) → List A → List Bytes
each print [] = []
each print (x ∷ xs) = print x ++ each print xs

unfoldable pub print_files : Project → Cache → List Bytes
print_files p k =
    if length p.files == 0
    then []
    else out "files-dir: %s\n" (c k.workdir ∷ [])
      ∷ out "files-written: before command execution\n" []
      ∷ out "files:\n" []
      ∷ each print_file p.files

abbrev pub true_or_false : Bool → Bytes
true_or_false true = codes "true"
true_or_false false = codes "false"

unfoldable pub print_write_dirs : List SandboxWriteDir → List Bytes
print_write_dirs [] = []
print_write_dirs (d ∷ dirs) =
    out "sandbox-write-dirs:\n" []
    ∷ map (λ (e : SandboxWriteDir). out "  - %s\n" (c e.path ∷ [])) (d ∷ dirs)

unfoldable pub print_sandbox : Project → Cache → List Bytes
print_sandbox p k =
    out "sandboxed: %s\n" (c (true_or_false p.sandboxed) ∷ [])
    ∷ (if p.sandboxed
        then out "sandbox-write-dir: %s\n" (c k.workdir ∷ [])
          ∷ print_write_dirs p.sandbox_write_dirs
        else [])

unfoldable pub print_kind : Bytes → ProjectKind → Project → Cache → List Bytes
print_kind shell command_kind p k =
    out "command: %S\n" (text p.command ∷ [])
    ∷ out "workdir: %s\n" (c k.workdir ∷ [])
    ∷ out "run: %s -c <command>, in workdir\n" (c shell ∷ [])
    ∷ out "record-when: the command exits 0\n" []
    ∷ print_files p k
print_kind shell url_kind p k = out "url: %S\n" (text p.url ∷ []) ∷ print_check p

unfoldable pub files_schedule : SchedKind → Project → List Bytes
files_schedule always p =
    out "check-when: inputs change, cached executable is missing, or on every invocation\n" [] ∷ []
files_schedule _ p =
    out
      "check-when: inputs change, cached executable is missing, or %u seconds after the last run\n"
      (unsigned (to_unsigned p.sched_interval) ∷ [])
    ∷ []

unfoldable pub plain_schedule : SchedKind → Project → List Bytes
plain_schedule always p = out "check-when: on every invocation\n" [] ∷ []
plain_schedule never p = out "check-when: only with --force\n" [] ∷ []
plain_schedule every p =
    out "check-when: %u seconds after the last run\n" (unsigned (to_unsigned p.sched_interval) ∷ [])
    ∷ []

unfoldable pub print_schedule : Project → List Bytes
print_schedule p =
    let sched = out "schedule: %s\n" (c (sched_describe 32 p) ∷ []) in
    if ltb 0 (length p.files)
    then out "cache-policy: input path, command, and embedded-file contents\n" []
      ∷ out "workdir-policy: stable per input path, cleared when inputs change\n" []
      ∷ (if not p.schedule_explicit || is_never p.sched_kind
          then out "check-when: inputs change, cached executable is missing, or with --force\n" []
            ∷ []
          else sched ∷ files_schedule p.sched_kind p)
    else sched ∷ plain_schedule p.sched_kind p

unfoldable pub print_choice : BinChoice → Project → List Bytes
print_choice named p = out "bin-name: %S\n" (text p.bin_name ∷ []) ∷ []
print_choice default p = out "bin-name: %S (default)\n" (text p.bin_name ∷ []) ∷ []
print_choice single p = []

unfoldable pub print_bin : Project → List Bytes
print_bin p = elim p.bin_path [
  | [] ↦ []
  | _ ∷ _ ↦
      print_choice p.bin_choice p
      ++ (out "bin-path: %s\n" (c p.bin_path ∷ [])
          ∷ out "exec: bin-path, with every argument that followed FILE\n" []
          ∷ [])
]

unfoldable pub print_script : Bytes → ProjectKind → Project → List Bytes
print_script shell url_kind p = print_install shell p
print_script shell command_kind p = []

-- `hm_plan_print`
unfoldable pub plan_print : Bytes → Project → Cache → List Bytes
plan_print shell p k =
    out "name: %S\n" (text p.name ∷ [])
    ∷ (print_sandbox p k
        ++ (print_kind shell p.kind p k
            ++ (print_schedule p
                ++ (out "cache-identity: %s\n" (c k.identity ∷ [])
                    ∷ out "cache-file: %s\n" (c k.path ∷ [])
                    ∷ (print_bin p ++ print_script shell p.kind p)))))
