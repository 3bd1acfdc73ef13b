-- ===== src/Config/Entries.antt =====
-- src/config.c: the entries of a project's collections: embedded files, writable directories of the
-- sandbox, and the names of a `bin-path` mapping.
use hacman.Config.Path.{valid_file_path}
use hacman.Config.State.{Result, ok, check, Cfg}
use hacman.Project.{
  EmbeddedFile, BinChoice, named, default, path_max, files_max, file_path_max,
  sandbox_write_dirs_max, bin_name_max, bin_names_max,
}
use hacman.Util.Text.{str_copy, str_eq_str, c_str}
use hacman.Base.{
  ℕ, ◌+◌, ◌-◌, Bool, true, false, not, ◌&&◌, ◌||◌, List, [], ◌∷◌, ◌++◌, ltb, ◌==◌, if◌then◌else◌,
  length, take, drop, get_or, Bytes, bytes_eq, codes,
}

-- The search for a path among the files.
unfoldable pub has_path : Bytes → List EmbeddedFile → Bool
has_path path [] = false
has_path path (f ∷ fs) = str_eq_str f.path path || has_path path fs

-- `add_file`: the new state, and the index of the file, which C returns as a pointer.
unfoldable pub add_file : Cfg → Bytes → ℕ → Result (Cfg × ℕ)
add_file c path line =
    check (not (valid_file_path path)) line "embedded file path must be a safe relative path" (
      check (has_path path c.out.files) line "duplicate embedded file path" (
        check (length c.out.files == files_max) line "too many embedded files" (
          ok (
            record c {
              out = record c.out {
                files =
                    c.out.files
                    ++ record {
                      path = str_copy (file_path_max + 1) path;
                      content = [];
                      content_indent = 0;
                      line = line;
                    }
                      ∷ [];
              };
            },
            length c.out.files,
          ))))

unfoldable pub add_sandbox_write_dir : Cfg → Bytes → ℕ → Result Cfg
add_sandbox_write_dir c source line =
    check (length source == 0 || ltb path_max (length source)) line
      "sandbox write directory is empty or too long"
      (check (length c.out.sandbox_write_dirs == sandbox_write_dirs_max) line
        "too many sandbox write directories"
        (ok (record c {
          out = record c.out {
            sandbox_write_dirs =
                c.out.sandbox_write_dirs ++ record { source = source; path = []; line = line } ∷ [];
          };
        })))

-- `strrchr`: what stands behind the last slash.
unfoldable pub after_slash : Bytes → Bytes → Bytes
after_slash cur [] = cur
after_slash cur (c ∷ s) = after_slash (if c == b'/' then s else cur) s

abbrev pub suffix : Bytes
suffix = codes ".siml"

unfoldable pub ends_in_suffix : Bytes → Bool
ends_in_suffix s =
    ltb (length suffix) (length s) && bytes_eq (drop (length s - length suffix) s) suffix

unfoldable pub bin_name_of : Bytes → Bytes
bin_name_of path =
    let r = after_slash path path in
    if ends_in_suffix r then take (length r - length suffix) r else r

unfoldable pub has_byte : ℕ → Bytes → Bool
has_byte b [] = false
has_byte b (c ∷ s) = c == b || has_byte b s

unfoldable pub has_name : Bytes → List Bytes → Bool
has_name name [] = false
has_name name (n ∷ ns) = str_eq_str name n || has_name name ns

-- What a valid entry changes.
unfoldable pub record_bin_entry : Cfg → Bytes → Bytes → Cfg
record_bin_entry c name path =
    let p = record c.out {
      bin_names = c.out.bin_names ++ c_str (str_copy (bin_name_max + 1) name) ∷ [];
    } in
    let first = if length c.out.bin_names == 0 then path else c.bin_default in
    if ltb 0 (length c.invoked_name) && str_eq_str name c.invoked_name
    then record c {
      bin_default = first;
      out = record p { bin = path; bin_name = c.invoked_name; bin_choice = named };
    }
    else record c { bin_default = first; out = p }

unfoldable pub add_bin_entry : Cfg → Bytes → Bytes → ℕ → Result Cfg
unfolding record_bin_entry
add_bin_entry c name path line =
    check (has_byte b'/' name || ends_in_suffix name || ltb bin_name_max (length name)) line
      "a bin-path name must be a file name without '/' or a '.siml' suffix"
      (check (length path == 0 || ltb path_max (length path)) line
        "a bin-path entry is empty or too long"
        (check (has_name name c.out.bin_names) line "duplicate bin-path name" (
          check (length c.out.bin_names == bin_names_max) line "too many bin-path names"
            (ok (record_bin_entry c name path)))))

abbrev pub is_named : BinChoice → Bool
is_named named = true
is_named _ = false

unfoldable pub finish_bin_map : Cfg → ℕ → Result Cfg
finish_bin_map c line =
    check (length c.out.bin_names == 0) line "a bin-path mapping needs at least one entry" (
      ok (
        if is_named c.out.bin_choice then record c { in_bin_map = false } else record c {
          in_bin_map = false;
          out = record c.out {
            bin = c.bin_default;
            bin_name = get_or c.out.bin_names 0 [];
            bin_choice = default;
          };
        }))
