-- ===== src/Config/Invariant/Steps.antt =====
-- Each step of the walk keeps the invariant: fields, headers and containers.
use hacman.Config.Invariant.{IsShort, IsBounded, Inv, Keeps}
use hacman.Config.Entries.{add_sandbox_write_dir, add_bin_entry, finish_bin_map, is_named}
use hacman.Config.Fields.{
  apply_field, apply_setting, apply_program, apply_bin_path, apply_sandboxed, apply_schedule,
  apply_check, parse_check,
}
use hacman.Config.Finish.{begin_project}
use hacman.Config.Events.{entry_header_step, sequence_start_step, mapping_start_step}
use hacman.Config.State.{Cfg}
use hacman.Util.Text.{str_copy, c_str, length-str_copy, length-c_str}
use hacman.Project.{BinChoice, default, bin_name_max, path_max, Project}
use hacman.Schedule.{parse_schedule}
use hacman.Base.{
  ℕ, ◌+◌, ◌≤◌, ◌++◌, All, All-append, some, [], ◌∷◌, Bytes, arith, ◌≡◌, true, false, length,
  length-append, Bool-cases, get_or, ◌==◌, Bool, if◌then◌else◌, Option-cases, inl, inr,
}

-- What reading a schedule, or a check, can change.
parse_schedule_changes :
    (p : Project) (v : Bytes) {q : Project}
    → parse_schedule p v ≡ some q
    → q ≡ record p { sched_kind = q.sched_kind; sched_interval = q.sched_interval }
unfolding parse_schedule
parse_schedule_changes p v h = ground arith

parse_check_changes :
    (p : Project) (v : Bytes) {q : Project}
    → parse_check p v ≡ some q
    → q ≡ record p { check = q.check }
unfolding parse_check
parse_check_changes p v h = ground arith

either : (b : Bool) (x y : Cfg) → Inv x → Inv y → Inv (if b then x else y)
either true x y hx hy = hx
either false x y hx hy = hy

module _ (c : Cfg) (h : Inv c) where
  pub entry_header_step-Inv : (key : Bytes) (line : ℕ) → Keeps (entry_header_step c key line)
  unfolding entry_header_step
  entry_header_step-Inv key line = ground arith

  pub sequence_start_step-Inv : (key : Bytes) (line : ℕ) → Keeps (sequence_start_step c key line)
  unfolding sequence_start_step
  sequence_start_step-Inv key line = ground arith

  pub mapping_start_step-Inv : (line : ℕ) → Keeps (mapping_start_step c line)
  unfolding mapping_start_step begin_project
  mapping_start_step-Inv line = ground arith

  map_left-Inv : Inv (record c { in_bin_map = false })
  map_left-Inv = ground arith

  default_taken-Inv :
      (name : Bytes) (choice : BinChoice)
      → Inv (record c {
        in_bin_map = false;
        out = record c.out { bin = c.bin_default; bin_name = name; bin_choice = choice };
      })
  default_taken-Inv name choice =
      let b : IsBounded
          (record c.out { bin = c.bin_default; bin_name = name; bin_choice = choice }) =
        ground arith in
      record {
        bounded = b;
        safe = record {
          files_fit = h.safe.files_fit;
          files_safe = h.safe.files_safe;
          files_differ = h.safe.files_differ;
        };
        default_fits = h.default_fits;
        pending_seen = h.pending_seen;
        in_seen = h.in_seen;
        files_seen = h.files_seen;
        install_seen = h.install_seen;
        block_seen = h.block_seen;
        begun = h.begun;
        open_ended = h.open_ended;
        closed = λ f.
            let (i, s, k) = h.closed f in
            (
              i,
              s,
              record {
                command_only = k.command_only;
                url_only = k.url_only;
                prefixed = k.prefixed;
                is_named = k.is_named;
                confined = k.confined;
                program = k.program;
              },
            );
      }

  pub finish_bin_map-Inv : (line : ℕ) → Keeps (finish_bin_map c line)
  unfolding finish_bin_map
  finish_bin_map-Inv line = elim (Bool-cases (length c.out.bin_names == 0)) [
    | inl e ↦ rw e tt
    | inr e ↦ rw e (
        either (is_named c.out.bin_choice) _ _ map_left-Inv
          (default_taken-Inv (get_or c.out.bin_names 0 []) default))
  ]

module _ (c : Cfg) (h : Inv c) (w : c.inside ≡ true) where
  apply_schedule-Inv :
      (v : Bytes) (line : ℕ) → Keeps (apply_schedule c line (parse_schedule c.out v))
  unfolding apply_schedule
  apply_schedule-Inv v line = elim (Option-cases (parse_schedule c.out v)) [
    | inl e ↦ ground arith
    | inr (q, e) ↦ ground (arith, parse_schedule_changes c.out v {q = q})
  ]

  apply_check-Inv : (v : Bytes) (line : ℕ) → Keeps (apply_check c line (parse_check c.out v))
  unfolding apply_check
  apply_check-Inv v line = elim (Option-cases (parse_check c.out v)) [
    | inl e ↦ ground arith
    | inr (q, e) ↦ ground (arith, parse_check_changes c.out v {q = q})
  ]

  apply_setting-Inv : (key value : Bytes) (line : ℕ) → Keeps (apply_setting c key value line)
  unfolding apply_setting apply_sandboxed
  apply_setting-Inv key value line = ground (arith, apply_schedule-Inv value line)

  apply_bin_path-Inv : (value : Bytes) (line : ℕ) → Keeps (apply_bin_path c value line)
  unfolding apply_bin_path
  apply_bin_path-Inv value line = ground arith

  apply_program-Inv : (key value : Bytes) (line : ℕ) → Keeps (apply_program c key value line)
  unfolding apply_program
  apply_program-Inv key value line = ground (
    arith,
    apply_bin_path-Inv value line,
    apply_check-Inv value line,
    apply_setting-Inv key value line,
  )

  pub apply_field-Inv : (key value : Bytes) (line : ℕ) → Keeps (apply_field c key value line)
  unfolding apply_field
  apply_field-Inv key value line = ground (arith, apply_program-Inv key value line)

  new_dir-IsShort :
      (source : Bytes) (line : ℕ)
      → length source ≤ path_max
      → All IsShort
          (c.out.sandbox_write_dirs ++ record { source = source; path = []; line = line } ∷ [])
  new_dir-IsShort source line s =
      All-append IsShort c.out.sandbox_write_dirs _ h.bounded.dirs_short ((s, omega arith), tt)

  new_name-short :
      (name : Bytes)
      → All
          (λ n. length n ≤ bin_name_max)
          (c.out.bin_names ++ c_str (str_copy (bin_name_max + 1) name) ∷ [])
  new_name-short name =
      let copied = str_copy (bin_name_max + 1) name in
      All-append (λ n. length n ≤ bin_name_max) c.out.bin_names _ h.bounded.bin_names_short
        (omega (arith, length-c_str copied, length-str_copy (bin_name_max + 1) name), tt)

  pub add_sandbox_write_dir-Inv :
      (source : Bytes) (line : ℕ) → Keeps (add_sandbox_write_dir c source line)
  unfolding add_sandbox_write_dir
  add_sandbox_write_dir-Inv source line = ground (
    arith,
    length-append c.out.sandbox_write_dirs
        (record { source = source; path = []; line = line } ∷ []),
    new_dir-IsShort source line,
  )

  pub add_bin_entry-Inv : (name path : Bytes) (line : ℕ) → Keeps (add_bin_entry c name path line)
  unfolding add_bin_entry
  add_bin_entry-Inv name path line = ground (
    arith,
    length-append c.out.bin_names (c_str (str_copy (bin_name_max + 1) name) ∷ []),
    new_name-short name,
  )
