-- ===== src/Install/Setup.antt =====
-- src/install.c, `hm_install` and `hm_command_run` in the process that waits: the temporary files,
-- the child, the signals that arrive meanwhile, and the result. What the kernel and the child
-- answer is a value `Setup`.
pub mod Results
pub mod Waited
pub mod Leftover
use hacman.Project.{Project}
use hacman.Base.{
  ℕ, Bool, true, false, not, ◌&&◌, ◌||◌, Option, none, some, List, [], ◌∷◌, ◌++◌, ◌==◌,
  if◌then◌else◌, length, Bytes, bytes_eq, Rc, success, failure,
}

-- The status that `waitpid` gives.
pub data Status : Type 0 where
  exited : ℕ → Status
  signaled : ℕ → Status
  stopped : Status

-- `make_temp` gives the file's path, or nothing; `opens` is `fdopen`. `wait` is the first answer of
-- `waitpid` that is not an interruption, `signal` is `setup_signal` (0 for none).
pub record Setup : Type 0 where
  pub ensure : Bool
  pub script : Option Bytes
  pub script_opens : Bool
  pub script_writes : Bool
  pub response : Option Bytes
  pub response_opens : Bool
  pub response_writes : Bool
  pub capture : Bool
  pub pipe : Bool
  pub fork : Bool
  pub wait : Option Status
  pub signal : ℕ
  pub keep_temp : Bool

pub data Action : Type 0 where
  created : Bytes → Action
  removed : Bytes → Action
  started : Action
  replayed : Action

-- A result, or death from a signal that was received.
pub data Ended : Type 0 where
  returns : Rc → Ended
  dies : ℕ → Ended

pub record Outcome : Type 0 where
  pub actions : List Action
  pub ended : Ended

infixr 5 ◌▸◌
abbrev pub ◌▸◌ : List Action → Outcome → Outcome
actions ▸ o = record { actions = actions ++ o.actions; ended = o.ended }

abbrev pub ends : Ended → Outcome
ends e = record { actions = []; ended = e }

-- `temp_file`: the path of the file that was created, with a stream to it.
unfoldable pub temp_file : Option Bytes → Bool → List Action × Option Bytes
temp_file none opens = ([], none)
temp_file (some path) true = (created path ∷ [], some path)
temp_file (some path) false = (created path ∷ removed path ∷ [], none)

-- `write_response`: with the path that is used from then on. A response that cannot be written is
-- not used, and its file stays.
unfoldable pub write_response : Setup → Bytes → List Action × Option Bytes
write_response s body =
    let (made, path) = temp_file s.response s.response_opens in
    if length body == 0
    then ([], none)
    else if s.response_writes
    then (made, path)
    else (made, none)

abbrev pub unlinks : Option Bytes → List Action
unlinks none = []
unlinks (some path) = removed path ∷ []

-- `forward_signals_reraise`
unfoldable pub reraise : ℕ → Rc → Outcome
reraise signal rc = if signal == 0 then ends (returns rc) else ends (dies signal)

-- From the label `cleanup` on.
unfoldable pub cleanup : Setup → Bytes → Option Bytes → ℕ → Rc → Outcome
cleanup s script response signal rc =
    (if s.keep_temp then [] else removed script ∷ unlinks response) ▸ reraise signal rc

-- `if (capture != NULL) replay_capture(capture)`
abbrev pub replay : Bool → List Action
replay true = []
replay false = replayed ∷ []

abbrev pub is_ok : Status → Bool
is_ok (exited n) = n == 0
is_ok _ = false

-- From the answer of `waitpid` on.
unfoldable pub waited : Setup → Bool → Bytes → Option Bytes → Option Status → Outcome
waited s trace script response none = cleanup s script response s.signal failure
waited s trace script response (some status) =
    if not (s.signal == 0)
    then replay trace ▸ cleanup s script response s.signal failure
    else if not (is_ok status)
    then (replay trace ++ unlinks response) ▸ ends (returns failure)
    else cleanup s script response s.signal success

-- From the capture on.
unfoldable pub run_setup : Setup → Bool → Bytes → Option Bytes → Outcome
run_setup s trace script response =
    if not trace && not s.capture || trace && not s.pipe
    then cleanup s script response 0 failure
    else if not s.fork
    then cleanup s script response s.signal failure
    else (started ∷ []) ▸ waited s trace script response s.wait

-- With the script's file.
unfoldable pub with_script : Setup → Bytes → Bool → Option Bytes → Outcome
with_script s body trace none = ends (returns failure)
with_script s body trace (some script) =
    let r = write_response s body in
    if not s.script_writes
    then (removed script ∷ []) ▸ ends (returns failure)
    else r.0 ▸ run_setup s trace script r.1

-- `hm_install`; `body` is the response's, empty where there is none.
unfoldable pub install : Setup → Project → Bytes → Bool → Outcome
install s p body trace =
    let t = temp_file s.script s.script_opens in
    if length p.install == 0
    then ends (returns success)
    else if not s.ensure
    then ends (returns failure)
    else t.0 ▸ with_script s body trace t.1

-- `hm_command_run`, from the answer of `waitpid` on.
unfoldable pub command_waited : Setup → Bool → Option Status → Outcome
command_waited s trace none = ends (returns failure)
command_waited s trace (some status) =
    if not (s.signal == 0)
    then replay trace ▸ reraise s.signal failure
    else if not (is_ok status)
    then replay trace ▸ ends (returns failure)
    else ends (returns success)

-- `hm_command_run`
unfoldable pub command_run : Setup → Bool → Outcome
command_run s trace =
    if not s.ensure
    then ends (returns failure)
    else if not trace && not s.capture || trace && not s.pipe
    then ends (returns failure)
    else if not s.fork
    then ends (returns failure)
    else (started ∷ []) ▸ command_waited s trace s.wait
