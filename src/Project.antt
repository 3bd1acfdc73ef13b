-- ===== src/Project.antt =====
-- src/hacman.h: the description of one project (`hm_project`) and the types of its fields. A slice
-- is its bytes; an array with a count is a list, so that the count is its length.
use hacman.Base.{ℕ, Bool, false, List, [], Bytes, ℤ, pos}

pub data SchedKind : Type 0 where
  always : SchedKind
  every : SchedKind
  never : SchedKind

pub data ProjectKind : Type 0 where
  url_kind : ProjectKind
  command_kind : ProjectKind

pub data CheckKind : Type 0 where
  etag : CheckKind
  hash : CheckKind
  version : CheckKind

pub data BinChoice : Type 0 where
  single : BinChoice
  named : BinChoice
  default : BinChoice

-- `hm_embedded_file`
pub record EmbeddedFile : Type 0 where
  pub path : Bytes
  pub content : Bytes
  pub content_indent : ℕ
  pub line : ℕ

-- `hm_sandbox_write_dir`
pub record SandboxWriteDir : Type 0 where
  pub source : Bytes
  pub path : Bytes
  pub line : ℕ

-- `hm_project`
pub record Project : Type 0 where
  pub kind : ProjectKind
  pub name : Bytes
  pub url : Bytes
  pub command : Bytes
  pub check : CheckKind
  pub sched_kind : SchedKind
  pub sched_interval : ℤ
  pub schedule_explicit : Bool
  pub sandboxed : Bool
  pub version_prefix : Bytes
  pub version_suffix : Bytes
  pub bin : Bytes
  pub bin_choice : BinChoice
  pub bin_name : Bytes
  pub bin_path : Bytes
  pub bin_cached : Bool
  pub install : Bytes
  pub install_indent : ℕ
  pub line : ℕ
  pub files : List EmbeddedFile
  pub sandbox_write_dirs : List SandboxWriteDir
  pub bin_names : List Bytes

abbrev pub name_max : ℕ
name_max = 127

abbrev pub url_max : ℕ
url_max = 1023

abbrev pub command_max : ℕ
command_max = 2047

abbrev pub path_max : ℕ
path_max = 1023

abbrev pub files_max : ℕ
files_max = 64

abbrev pub file_path_max : ℕ
file_path_max = 128

abbrev pub sandbox_write_dirs_max : ℕ
sandbox_write_dirs_max = 16

abbrev pub bin_name_max : ℕ
bin_name_max = 128

abbrev pub bin_names_max : ℕ
bin_names_max = 32

-- A project whose bytes are all 0, as `memset` leaves it.
abbrev pub zeroed : Project
zeroed = record {
  kind = url_kind;
  name = [];
  url = [];
  command = [];
  check = etag;
  sched_kind = always;
  sched_interval = pos 0;
  schedule_explicit = false;
  sandboxed = false;
  version_prefix = [];
  version_suffix = [];
  bin = [];
  bin_choice = single;
  bin_name = [];
  bin_path = [];
  bin_cached = false;
  install = [];
  install_indent = 0;
  line = 0;
  files = [];
  sandbox_write_dirs = [];
  bin_names = [];
}
