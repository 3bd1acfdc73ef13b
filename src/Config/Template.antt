-- ===== src/Config/Template.antt =====
-- src/config.c, `expand_template`: `{{VAR}}` references in the paths that hacman runs or opens.
pub mod Bounds
pub mod Pieces
use hacman.Config.State.{
  Message, unterminated, unset, expands_too_long, expands_relative, Result, ok, err, ◌>>=◌,
  Environment,
}
use hacman.Util.Text.{str_eq, c_str}
use hacman.Base.{
  ℕ, zero, suc, ◌+◌, ◌-◌, ◌≤◌, ◌<◌, Bool, true, false, not, ◌&&◌, Option, none, some, List, [], ◌∷◌,
  ◌++◌, ltb, leb, ◌==◌, if◌then◌else◌, length, get_or, Bytes, String, codes,
}

-- `out`, `o` and `too_long`.
pub record Output : Type 0 where
  pub written : Bytes
  pub too_long : Bool

unfoldable pub put : ℕ → Output → ℕ → Output
put size out c =
    if ltb (length out.written + 1) size
    then record out { written = out.written ++ c ∷ [] }
    else record out { too_long = true }

unfoldable pub put_all : ℕ → Output → Bytes → Output
put_all size out [] = out
put_all size out (c ∷ v) = put_all size (put size out c) v

-- `{{` at the read position, and what stands behind it.
unfoldable pub opens : Bytes → Option Bytes
opens (a ∷ b ∷ s) = if a == b'{' && b == b'{' then some s else none
opens _ = none

unfoldable pub closes : Bytes → Option Bytes
closes (a ∷ b ∷ s) = if not (a == b'}') then none else if not (b == b'}') then none else some s
closes _ = none

-- The loop that fills `name`, with the room that is left: the name, and what follows it.
unfoldable pub take_name : ℕ → Bytes → Bytes × Bytes
take_name zero s = ([], s)
take_name (suc room) [] = ([], [])
take_name (suc room) (c ∷ s) =
    let (name, rest) = take_name room s in if c == b'}' then ([], c ∷ s) else (c ∷ name, rest)

abbrev pub name_room : ℕ
name_room = 63

-- An empty value counts as absent.
unfoldable pub set_value : Option Bytes → Option Bytes
set_value none = none
set_value (some []) = none
set_value (some (c ∷ v)) = some (c ∷ v)

unfoldable pub value_of : Environment → Bytes → Option Bytes
unfolding set_value str_eq c_str
value_of env name =
    set_value (if str_eq (c_str name) (codes "HOME") then env.home else env.getenv (c_str name))

-- The loop, on fuel: each round reads a byte at least.
unfoldable pub expand_from : Environment → ℕ → String → ℕ → ℕ → Output → Bytes → Result Output
unfolding put put_all opens closes take_name value_of
expand_from env size what line zero out s = ok out
expand_from env size what line (suc fuel) out [] = ok out
expand_from env size what line (suc fuel) out (c ∷ s) = elim (opens (c ∷ s)) [
  | none ↦ expand_from env size what line fuel (put size out c) s
  | some inner ↦ elim (closes (take_name name_room inner).1) [
    | none ↦ err line (unterminated what)
    | some after ↦ elim (value_of env (take_name name_room inner).0) [
      | none ↦ err line (unset what (c_str (take_name name_room inner).0))
      | some v ↦ expand_from env size what line fuel (put_all size out v) after
    ]
  ]
]

-- The tests behind the loop.
unfoldable pub checked : String → ℕ → Bool → Output → Result Bytes
checked what line require_absolute out =
    if out.too_long
    then err line (expands_too_long what)
    else if require_absolute && not (get_or out.written 0 0 == b'/')
    then err line (expands_relative what)
    else ok out.written

unfoldable pub expand_template : Environment → Bytes → String → ℕ → ℕ → Bool → Result Bytes
unfolding expand_from checked
expand_template env tpl what size line require_absolute =
    expand_from env size what line (length tpl) (record { written = []; too_long = false }) tpl
    >>= checked what line require_absolute
