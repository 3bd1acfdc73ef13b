-- ===== src/Config/State.antt =====
-- src/config.c: the bookkeeping of a parse (`hm_cfg`), and its errors. A function that returns -1
-- after it printed a message gives `err` with the message's line and content.
use hacman.Project.{Project}
use hacman.Base.{ℕ, Bool, true, false, Option, Bytes, String, ◌≡◌, refl}

pub data Message : Type 0 where
  text : String → Message
  unknown_key : Bytes → Message
  unterminated : String → Message
  unset : String → Bytes → Message
  expands_too_long : String → Message
  expands_relative : String → Message
  syntax : String → Message
  null_read : Message

-- A refusal carries its line.
pub data Result {ℓ} (A : Type ℓ) : Type ℓ where
  err : (line : ℕ) (message : Message) → Result A
  ok : (value : A) → Result A

-- `if (bad) { cfg_err(...); return -1; }` in front of `rest`.
abbrev pub check {ℓ} : {A : Type ℓ} → Bool → ℕ → String → Result A → Result A
check true line msg rest = err line (text msg)
check false line msg rest = rest

module _ {ℓ κ} {A : Type ℓ} {B : Type κ} where
  infixl 5 ◌>>=◌
  -- `if (m != 0) return -1;` in front of the rest.
  abbrev pub ◌>>=◌ : (m : Result A) (rest : A → Result B) → Result B
  err line message >>= rest = err line message
  ok value >>= rest = rest value

  -- A chain that succeeds has a first part that did.
  pub >>=-eq-ok :
      (m : Result A) (rest : A → Result B) {y : B}
      → (m >>= rest) ≡ ok y
      → (x : A) × (m ≡ ok x) × (rest x ≡ ok y)
  >>=-eq-ok (err line message) rest e = cc
  >>=-eq-ok (ok x) rest e = (x, refl, e)

-- What the parse asks of the process environment: `hm_env_get()->home`, and `getenv`.
pub record Environment : Type 0 where
  pub home : Option Bytes
  pub getenv : Bytes → Option Bytes

pub data BlockKind : Type 0 where
  no_block : BlockKind
  install_block : BlockKind
  file_block : BlockKind

-- `hm_cfg`. `cur != NULL` is `inside`; `block_file` is an index into `out.files`; `block_start`
-- and `block_end` are offsets into the input.
pub record Cfg : Type 0 where
  pub invoked : Option Bytes
  pub out : Project
  pub started : Bool
  pub finished : Bool
  pub inside : Bool
  pub seen_check : Bool
  pub seen_version : Bool
  pub resolve_paths : Bool
  pub seen_install : Bool
  pub seen_files : Bool
  pub seen_sandbox_write_dirs : Bool
  pub pending_files : Bool
  pub pending_sandbox_write_dirs : Bool
  pub in_files : Bool
  pub in_sandbox_write_dirs : Bool
  pub seen_bin : Bool
  pub pending_bin_map : Bool
  pub in_bin_map : Bool
  pub bin_default : Bytes
  pub invoked_name : Bytes
  pub block_kind : BlockKind
  pub block_file : Option ℕ
  pub block_start : Option ℕ
  pub block_end : ℕ
