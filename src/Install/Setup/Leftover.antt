-- ===== src/Install/Setup/Leftover.antt =====
-- src/install.c: which temporary files a setup leaves behind.
use hacman.Install.Setup.Waited.{
  is_at, remains, remains-append, Known, IsKept, waited-IsKept, remains-cleanup,
}
use hacman.Install.Setup.{
  Setup, removed, started, returns, Outcome, ◌▸◌, ends, temp_file, write_response, cleanup, waited,
  run_setup, with_script, install,
}
use hacman.Project.{Project}
use mathlib.Core.Bool.{true≢false}
use hacman.Base.{
  ℕ, Bool, true, false, not, ◌&&◌, ◌||◌, Option, none, some, [], ◌∷◌, ◌==◌, if◌then◌else◌, length,
  Bytes, bytes_eq, failure, ◌≡◌, refl, sym, ap, ◌∙◌, arith, inl, inr, Bool-cases, ◌⊎◌, bytes_eq_iff,
}

-- Under a test that leaves nothing, or what follows.
kept_lem :
    (b : Bool) (q : Bytes) (s : Setup) (script : Bytes) (there : Bool) (x y : Outcome)
    → remains q x.actions there ≡ false
    → (remains q y.actions there ≡ true → IsKept q s script y)
    → remains q (if b then x else y).actions there ≡ true
    → IsKept q s script (if b then x else y)
kept_lem true q s script there x y gone next h = absurd (true≢false (sym h ∙ gone))
kept_lem false q s script there x y gone next h = next h

run_setup-IsKept :
    (q : Bytes) (s : Setup) (trace : Bool) (script : Bytes) (response : Option Bytes) (there : Bool)
    → s.keep_temp ≡ false
    → Known q there script response
    → remains q (run_setup s trace script response).actions there ≡ true
    → IsKept q s script (run_setup s trace script response)
unfolding run_setup
run_setup-IsKept q s trace script response there keep known h =
    let gone =
      λ (signal : ℕ). remains-cleanup q s script response signal failure there keep known in
    kept_lem (not trace && not s.capture || trace && not s.pipe) q s script there
      (cleanup s script response 0 failure) _ (gone 0)
      (kept_lem (not s.fork) q s script there (cleanup s script response s.signal failure)
        ((started ∷ []) ▸ waited s trace script response s.wait) (gone s.signal)
        (unfold remains in waited-IsKept q s trace script response s.wait there keep known))
      h

temp_file-Known :
    (q script : Bytes) (path : Option Bytes) (opens : Bool)
    → Known q
        (remains q (temp_file path opens).0 (bytes_eq q script))
        script
        (temp_file path opens).1
unfolding temp_file remains
temp_file-Known q script none opens h = ground arith
temp_file-Known q script (some path) true h = ground arith
temp_file-Known q script (some path) false h = ground arith

or_false : (b : Bool) → (b || false) ≡ b
or_false true = refl
or_false false = refl

-- The file is not that of a response which cannot be written.
abbrev IsUsed : Bytes → Setup → Type 0
IsUsed q s = (s.response_writes ≡ true) ⊎ (is_at s.response q ≡ false)

-- Another file is there or not, as it was.
temp_file_other :
    (q : Bytes) (path : Option Bytes) (opens there : Bool)
    → is_at path q ≡ false
    → remains q (temp_file path opens).0 there ≡ there
unfolding temp_file remains
temp_file_other q none opens there h = refl
temp_file_other q (some path) true there h = ground (arith, h)
temp_file_other q (some path) false there h = ground (arith, h)

lost-Known :
    (q script : Bytes) (path : Option Bytes) (opens : Bool)
    → is_at path q ≡ false
    → Known q (remains q (temp_file path opens).0 (bytes_eq q script)) script none
lost-Known q script path opens h there =
    or_false (bytes_eq q script) ∙ sym (temp_file_other q path opens (bytes_eq q script) h) ∙ there

write_response-Known :
    (q : Bytes) (s : Setup) (body script : Bytes)
    → IsUsed q s
    → Known q
        (remains q (write_response s body).0 (bytes_eq q script))
        script
        (write_response s body).1
unfolding write_response
write_response-Known q s body script used h = elim (Bool-cases (length body == 0)) [
  | inl e ↦ rw e (
      let there : remains q [] (bytes_eq q script) ≡ true = sym (rw e refl) ∙ h in
      unfold remains in ground arith)
  | inr e ↦ elim (Bool-cases s.response_writes) [
    | inl writes ↦
        rw (e, writes)
          (temp_file-Known q script s.response s.response_opens (sym (rw (e, writes) refl) ∙ h))
    | inr lost ↦ elim used [
      | inl writes ↦ absurd (true≢false (sym writes ∙ lost))
      | inr other ↦
          rw (e, lost)
            (lost-Known q script s.response s.response_opens other (sym (rw (e, lost) refl) ∙ h))
    ]
  ]
]

with_script-IsKept :
    (q : Bytes) (s : Setup) (body : Bytes) (trace : Bool) (script : Bytes)
    → s.keep_temp ≡ false
    → IsUsed q s
    → remains q (with_script s body trace (some script)).actions (bytes_eq q script) ≡ true
    → IsKept q s script (with_script s body trace (some script))
unfolding with_script
with_script-IsKept q s body trace script keep writes h =
    let r = write_response s body in
    let there = remains q r.0 (bytes_eq q script) in
    let known = write_response-Known q s body script writes in
    kept_lem (not s.script_writes) q s script (bytes_eq q script)
      ((removed script ∷ []) ▸ ends (returns failure)) (r.0 ▸ run_setup s trace script r.1)
      (unfold remains in ground arith)
      (λ g.
        run_setup-IsKept q s trace script r.1 there keep known (
          sym (remains-append q r.0 (run_setup s trace script r.1).actions (bytes_eq q script))
          ∙ g))
      h

start-IsKept :
    (q : Bytes) (s : Setup) (body : Bytes) (trace : Bool) (script : Option Bytes) (opens : Bool)
    → s.keep_temp ≡ false
    → IsUsed q s
    → remains q
        ((temp_file script opens).0 ▸ with_script s body trace (temp_file script opens).1).actions
        false
      ≡ true
    → (script ≡ some q)
      × (((temp_file script opens).0 ▸ with_script s body trace (temp_file script opens).1).ended
          ≡ returns failure)
      × (s.signal ≡ 0)
unfolding temp_file remains
start-IsKept q s body trace none opens keep writes h =
    absurd (true≢false (sym h ∙ unfold with_script in refl))
start-IsKept q s body trace (some script) true keep writes h =
    let (same, result, signal) = with_script-IsKept q s body trace script keep writes (
      ap (λ b. remains q (with_script s body trace (some script)).actions b)
        (sym (or_false (bytes_eq q script)))
      ∙ h) in
    (ap some (sym same), result, signal)
start-IsKept q s body trace (some script) false keep writes h =
    absurd (true≢false (sym h ∙ unfold with_script in ground arith))

script-remains :
    (q : Bytes) (s : Setup) (p : Project) (body : Bytes) (trace : Bool)
    → s.keep_temp ≡ false
    → IsUsed q s
    → remains q (install s p body trace).actions false ≡ true
    → (s.script ≡ some q) × ((install s p body trace).ended ≡ returns failure) × (s.signal ≡ 0)
unfolding install
script-remains q s p body trace keep writes h = elim (Bool-cases (length p.install == 0)) [
  | inl e ↦
      let eq : remains q (install s p body trace).actions false ≡ false =
        rw e (unfold remains in refl) in
      absurd (true≢false (sym h ∙ eq))
  | inr e ↦ elim (Bool-cases s.ensure) [
    | inr f ↦
        let eq : remains q (install s p body trace).actions false ≡ false =
          rw (e, f) (unfold remains in refl) in
        absurd (true≢false (sym h ∙ eq))
    | inl f ↦
        let t = temp_file s.script s.script_opens in
        let o = t.0 ▸ with_script s body trace t.1 in
        let eq : install s p body trace ≡ o = rw (e, f) refl in
        let (script, result, signal) =
          start-IsKept q s body trace s.script s.script_opens keep writes
            (sym (ap (λ (x : Outcome). remains q x.actions false) eq) ∙ h) in
        (script, ap (λ (x : Outcome). x.ended) eq ∙ result, signal)
  ]
]

is_at-eq : (path : Option Bytes) (q : Bytes) → is_at path q ≡ true → path ≡ some q
is_at-eq none q h = absurd (true≢false (sym h))
is_at-eq (some path) q h = ap some (sym ((bytes_eq_iff q path).0 h))

-- Unless temporary files are kept on request, `hm_install` can leave two temporary files behind: the
-- script, when it returns -1 for a setup that no signal interrupted; and the response, when it
-- cannot be written.
pub install-remains :
    (q : Bytes) (s : Setup) (p : Project) (body : Bytes) (trace : Bool)
    → s.keep_temp ≡ false
    → remains q (install s p body trace).actions false ≡ true
    → ((s.script ≡ some q) × ((install s p body trace).ended ≡ returns failure) × (s.signal ≡ 0))
      ⊎ ((s.response ≡ some q) × (s.response_writes ≡ false))
install-remains q s p body trace keep h = elim (Bool-cases s.response_writes) [
  | inl writes ↦ inl (script-remains q s p body trace keep (inl writes) h)
  | inr lost ↦ elim (Bool-cases (is_at s.response q)) [
    | inl same ↦ inr (is_at-eq s.response q same, lost)
    | inr other ↦ inl (script-remains q s p body trace keep (inr other) h)
  ]
]
