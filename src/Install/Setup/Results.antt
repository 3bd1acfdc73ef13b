-- ===== src/Install/Setup/Results.antt =====
-- src/install.c: when a setup or a command counts as done.
use hacman.Install.Setup.{
  Status, exited, signaled, stopped, Setup, removed, started, returns, Outcome, ◌▸◌, ends,
  temp_file, write_response, reraise, cleanup, is_ok, waited, run_setup, with_script, install,
  command_waited, command_run,
}
use hacman.Project.{Project}
use hacman.Base.{
  ℕ, ◌<◌, Bool, true, false, not, ◌&&◌, ◌||◌, Option, none, some, [], ◌∷◌, ◌==◌, if◌then◌else◌,
  length, Bytes, success, failure, ◌≡◌, ◌≢◌, sym, ap, ◌∙◌, arith, inl, inr, Bool-cases,
}

-- The child exited with 0 and no signal came.
abbrev pub IsDone : Setup → Type 0
IsDone s = (s.wait ≡ some (exited 0)) × (s.signal ≡ 0)

is_ok_lem : (st : Status) → is_ok st ≡ true → st ≡ exited 0
is_ok_lem (exited n) h = let e : n ≡ 0 = ground arith in ap exited e
is_ok_lem (signaled n) h = absurd (ground arith)
is_ok_lem stopped h = absurd (ground arith)

reraise_failed : (signal : ℕ) → (reraise signal failure).ended ≢ returns success
unfolding reraise
reraise_failed signal h = elim (Bool-cases (signal == 0)) [
  | inl e ↦ ground arith
  | inr e ↦ ground arith
]

waited-IsDone :
    (s : Setup) (trace : Bool) (script : Bytes) (response : Option Bytes) (w : Option Status)
    → (waited s trace script response w).ended ≡ returns success
    → (w ≡ some (exited 0)) × (s.signal ≡ 0)
unfolding waited cleanup
waited-IsDone s trace script response none h = absurd (reraise_failed s.signal h)
waited-IsDone s trace script response (some status) h = elim (Bool-cases (s.signal == 0)) [
  | inr e ↦ absurd (reraise_failed s.signal (ground arith))
  | inl e ↦ elim (Bool-cases (is_ok status)) [
    | inl f ↦ (ap some (is_ok_lem status f), ground arith)
    | inr f ↦ absurd (ground arith)
  ]
]

command_waited-IsDone :
    (s : Setup) (trace : Bool) (w : Option Status)
    → (command_waited s trace w).ended ≡ returns success
    → (w ≡ some (exited 0)) × (s.signal ≡ 0)
unfolding command_waited
command_waited-IsDone s trace none h = absurd (ground arith)
command_waited-IsDone s trace (some status) h = elim (Bool-cases (s.signal == 0)) [
  | inr e ↦ absurd (reraise_failed s.signal (ground arith))
  | inl e ↦ elim (Bool-cases (is_ok status)) [
    | inl f ↦ (ap some (is_ok_lem status f), ground arith)
    | inr f ↦ absurd (ground arith)
  ]
]

-- A result that is not success under a test, or what follows.
unless_lem :
    (b : Bool) (a c : Outcome)
    → (a.ended ≢ returns success)
    → (if b then a else c).ended ≡ returns success
    → c.ended ≡ returns success
unless_lem true a c n h = absurd (n h)
unless_lem false a c n h = h

failed : returns failure ≢ returns success
failed h = ground arith

pub command_run-IsDone :
    (s : Setup) (trace : Bool) → (command_run s trace).ended ≡ returns success → IsDone s
unfolding command_run
command_run-IsDone s trace h =
    let h1 = unless_lem (not s.ensure) _ _ failed h in
    let h2 = unless_lem (not trace && not s.capture || trace && not s.pipe) _ _ failed h1 in
    let h3 = unless_lem (not s.fork) _ ((started ∷ []) ▸ command_waited s trace s.wait) failed h2 in
    command_waited-IsDone s trace s.wait h3

run_setup-IsDone :
    (s : Setup) (trace : Bool) (script : Bytes) (response : Option Bytes)
    → (run_setup s trace script response).ended ≡ returns success
    → IsDone s
unfolding run_setup
run_setup-IsDone s trace script response h =
    let h1 =
      unless_lem (not trace && not s.capture || trace && not s.pipe)
        (cleanup s script response 0 failure) _ (unfold cleanup in reraise_failed 0) h in
    let h2 =
      unless_lem (not s.fork) (cleanup s script response s.signal failure)
        ((started ∷ []) ▸ waited s trace script response s.wait)
        (unfold cleanup in reraise_failed s.signal) h1 in
    waited-IsDone s trace script response s.wait h2

with_script-IsDone :
    (s : Setup) (body : Bytes) (trace : Bool) (script : Option Bytes)
    → (with_script s body trace script).ended ≡ returns success
    → IsDone s
unfolding with_script
with_script-IsDone s body trace none h = absurd (failed h)
with_script-IsDone s body trace (some script) h =
    let r = write_response s body in
    run_setup-IsDone s trace script r.1 (
      unless_lem (not s.script_writes) ((removed script ∷ []) ▸ ends (returns failure))
        (r.0 ▸ run_setup s trace script r.1) failed h)

-- `hm_install` of a project with a script returns 0 only when its child exited with 0 and no signal
-- to stop was received meanwhile.
pub install-IsDone :
    (s : Setup) (p : Project) (body : Bytes) (trace : Bool)
    → 0 < length p.install
    → (install s p body trace).ended ≡ returns success
    → IsDone s
unfolding install
install-IsDone s p body trace n h =
    let t = temp_file s.script s.script_opens in
    let some_text : (length p.install == 0) ≡ false = ground arith in
    let rest =
      if not s.ensure then ends (returns failure) else t.0 ▸ with_script s body trace t.1 in
    let h0 : rest.ended ≡ returns success =
      sym (ap (λ (b : Bool). (if b then ends (returns success) else rest).ended) some_text) ∙ h in
    with_script-IsDone s body trace t.1 (
      unless_lem (not s.ensure) (ends (returns failure)) (t.0 ▸ with_script s body trace t.1) failed
        h0)
