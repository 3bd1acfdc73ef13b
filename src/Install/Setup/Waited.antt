-- ===== src/Install/Setup/Waited.antt =====
-- src/install.c: which temporary files are left when the setup was waited for.
use hacman.Install.Setup.{
  Status, Setup, Action, created, removed, started, replayed, returns, Outcome, ◌▸◌, ends, unlinks,
  reraise, cleanup, replay, is_ok, waited,
}
use mathlib.Core.Bool.{true≢false}
use hacman.Base.{
  ℕ, Bool, true, false, not, ◌&&◌, ◌||◌, Option, none, some, List, [], ◌∷◌, ◌++◌, ◌==◌, Bytes,
  bytes_eq, bytes_eq_iff, Rc, success, failure, ◌≡◌, refl, sym, ap, ◌∙◌, arith, inl, inr,
  Bool-cases, append-nil, ==_iff,
}

-- Whether the file `q` is there at the end, when it was there before or not.
unfoldable pub remains : Bytes → List Action → Bool → Bool
remains q [] there = there
remains q (created path ∷ more) there = remains q more (bytes_eq q path || there)
remains q (removed path ∷ more) there = remains q more (not (bytes_eq q path) && there)
remains q (_ ∷ more) there = remains q more there

pub remains-append :
    (q : Bytes) (xs ys : List Action) (there : Bool)
    → remains q (xs ++ ys) there ≡ remains q ys (remains q xs there)
unfolding remains
remains-append q [] ys there = refl
remains-append q (created path ∷ xs) ys there = remains-append q xs ys _
remains-append q (removed path ∷ xs) ys there = remains-append q xs ys _
remains-append q (started ∷ xs) ys there = remains-append q xs ys there
remains-append q (replayed ∷ xs) ys there = remains-append q xs ys there

abbrev pub is_at : Option Bytes → Bytes → Bool
is_at none q = false
is_at (some path) q = bytes_eq q path

-- A file that is there is the script or the response.
abbrev pub Known : Bytes → Bool → Bytes → Option Bytes → Type 0
Known q there script response = there ≡ true → (bytes_eq q script || is_at response q) ≡ true

removed-gone :
    (q script : Bytes) (response : Option Bytes) (there : Bool)
    → Known q there script response
    → remains q (removed script ∷ unlinks response) there ≡ false
unfolding remains
removed-gone q script none there known = ground arith
removed-gone q script (some r) there known = ground arith

reraise_actions : (signal : ℕ) (rc : Rc) → (reraise signal rc).actions ≡ []
unfolding reraise
reraise_actions signal rc = elim (Bool-cases (signal == 0)) [
  | inl e ↦ rw e refl
  | inr e ↦ rw e refl
]

pub remains-cleanup :
    (q : Bytes) (s : Setup) (script : Bytes) (response : Option Bytes) (signal : ℕ) (rc : Rc)
    (there : Bool)
    → s.keep_temp ≡ false
    → Known q there script response
    → remains q (cleanup s script response signal rc).actions there ≡ false
unfolding cleanup
remains-cleanup q s script response signal rc there keep known =
    rw
      (
        keep,
        remains-append q (removed script ∷ unlinks response) (reraise signal rc).actions there,
        reraise_actions signal rc,
      )
      (unfold remains in removed-gone q script response there known)

remains-replay :
    (q : Bytes) (trace : Bool) (xs : List Action) (there : Bool)
    → remains q (replay trace ++ xs) there ≡ remains q xs there
unfolding remains
remains-replay q true xs there = refl
remains-replay q false xs there = refl

-- The one file that may stay: the script of a setup that failed by itself.
abbrev pub IsKept : Bytes → Setup → Bytes → Outcome → Type 0
IsKept q s script o = (q ≡ script) × (o.ended ≡ returns failure) × (s.signal ≡ 0)

only_script :
    (q script : Bytes) (response : Option Bytes) (there : Bool)
    → Known q there script response
    → remains q (unlinks response) there ≡ true
    → bytes_eq q script ≡ true
unfolding remains
only_script q script none there known h = ground arith
only_script q script (some r) there known h = ground arith

pub waited-IsKept :
    (q : Bytes) (s : Setup) (trace : Bool) (script : Bytes) (response : Option Bytes)
    (w : Option Status) (there : Bool)
    → s.keep_temp ≡ false
    → Known q there script response
    → remains q (waited s trace script response w).actions there ≡ true
    → IsKept q s script (waited s trace script response w)
unfolding waited
waited-IsKept q s trace script response none there keep known h =
    let gone = remains-cleanup q s script response s.signal failure there keep known in
    absurd (true≢false (sym h ∙ gone))
waited-IsKept q s trace script response (some status) there keep known h =
    elim (Bool-cases (s.signal == 0)) [
      | inr e ↦
          let gone = remains-cleanup q s script response s.signal failure there keep known in
          let out = waited s trace script response (some status) in
          let eq : remains q (waited s trace script response (some status)).actions there ≡ false =
            rw (e) (
              remains-replay q trace (cleanup s script response s.signal failure).actions there
              ∙ gone) in
          absurd (true≢false (sym h ∙ eq))
      | inl e ↦ elim (Bool-cases (is_ok status)) [
        | inl f ↦
            let gone = remains-cleanup q s script response s.signal success there keep known in
            let eq : remains q (waited s trace script response (some status)).actions there
                ≡ false =
              rw (e, f) gone in
            absurd (true≢false (sym h ∙ eq))
        | inr f ↦
            let o : Outcome = (replay trace ++ unlinks response) ▸ ends (returns failure) in
            let eq : remains q (waited s trace script response (some status)).actions there
                ≡ remains q o.actions there =
              rw (e, f) refl in
            let left : remains q (unlinks response) there ≡ true =
              sym (remains-replay q trace (unlinks response) there)
              ∙ ap (λ xs. remains q xs there) (sym (append-nil (replay trace ++ unlinks response)))
              ∙ sym eq
              ∙ h in
            let mine = only_script q script response there known left in
            rw (e, f) ((bytes_eq_iff q script).0 mine, refl, (==_iff s.signal 0).0 e)
      ]
    ]
